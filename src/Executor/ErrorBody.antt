-- ===== src/Executor/ErrorBody.antt =====
-- `readStreamErrorBody`: how much of a failed stream is read.
use cpa_plugin_commandcode.Base.{
  ℕ, zero, suc, ◌+◌, ◌-◌, ◌≤◌, ◌^◌, Bytes, true, false, List, [], ◌∷◌, ◌++◌, length, length-append,
  take, ltb, append_assoc, append-nil, ◌≡◌, refl, sym, ap, ◌∙◌, ◌⊎◌, inl, inr, arith,
}
use cpa_plugin_commandcode.Pool.{Error}
use cpa_plugin_commandcode.Stream.{Input, read, broken, cancelled}
use cpa_plugin_commandcode.Executor.{max_error_bytes, read_error_body}

-- The text of a stream up to its end, to its error, whose payload belongs to it, or to the end of
-- the context.
unfoldable pub upstream_text : List Input → Bytes
upstream_text [] = []
upstream_text (cancelled e ∷ _) = []
upstream_text (broken p e ∷ _) = p
upstream_text (read p ∷ inputs) = p ++ upstream_text inputs

take-none : (n : ℕ) (xs : Bytes) → n ≡ 0 → take n xs ≡ []
take-none n xs h = rw h refl

take-all : (n : ℕ) (xs : Bytes) → length xs ≤ n → take n xs ≡ xs
take-all zero [] h = refl
take-all zero (x ∷ xs) h = absurd (omega arith)
take-all (suc n) [] h = refl
take-all (suc n) (x ∷ xs) h = ap (λ l. x ∷ l) (take-all n xs (omega arith))

-- What fits in front is kept whole.
take-front :
    (n : ℕ) (xs ys : Bytes) → length xs ≤ n → take n (xs ++ ys) ≡ xs ++ take (n - length xs) ys
take-front n [] ys h = let same : n - 0 ≡ n = omega arith in rw same refl
take-front zero (x ∷ xs) ys h = absurd (omega arith)
take-front (suc n) (x ∷ xs) ys h =
    let same : suc n - suc (length xs) ≡ n - length xs = omega arith in
    rw same (ap (λ l. x ∷ l) (take-front n xs ys (omega arith)))

-- What lies behind a text that is long enough is cut off.
pub take-short : (n : ℕ) (xs ys : Bytes) → n ≤ length xs → take n (xs ++ ys) ≡ take n xs
take-short zero xs ys h = refl
take-short (suc n) [] ys h = absurd (omega arith)
take-short (suc n) (x ∷ xs) ys h = ap (λ l. x ∷ l) (take-short n xs ys (omega arith))

-- The test at the head of the loop: the body is full, or a text fits or not.
room-cases :
    (max body p : ℕ)
    → body ≤ max
    → ((ltb body max ≡ false) × (body ≡ max))
      ⊎ ((ltb body max ≡ true) × (ltb (max - body) p ≡ true) × (max - body ≤ p))
      ⊎ ((ltb body max ≡ true) × (ltb (max - body) p ≡ false) × (body + p ≤ max))
room-cases max body p h = ground arith

-- One round on a payload, and the text behind it.
read_error_body-read :
    (p : Bytes) (inputs : List Input) (body : Bytes)
    → length body ≤ max_error_bytes
    → (length (body ++ p) ≤ max_error_bytes
        → read_error_body inputs (body ++ p)
          ≡ take max_error_bytes ((body ++ p) ++ upstream_text inputs))
    → read_error_body (read p ∷ inputs) body
      ≡ take max_error_bytes (body ++ (p ++ upstream_text inputs))
unfolding read_error_body
read_error_body-read p inputs body h rest =
    let text = p ++ upstream_text inputs in
    elim (room-cases max_error_bytes (length body) (length p) h) [
      | inl (full, same) ↦ rw full (
          sym (
            take-short max_error_bytes body text (omega arith)
            ∙ take-all max_error_bytes body (omega arith)))
      | inr (inl (open_, long, much)) ↦
          rw (open_, long)
            (sym (
              take-front max_error_bytes body text h
              ∙ ap (λ l. body ++ l)
                  (take-short (max_error_bytes - length body) p (upstream_text inputs) much)))
      | inr (inr (open_, short, fits)) ↦
          rw (open_, short)
            (rest (omega (arith, length-append body p))
              ∙ ap (take max_error_bytes) (append_assoc body p (upstream_text inputs)))
    ]

-- The last payload, which comes with the error.
read_error_body-broken :
    (p : Bytes) (e : Error) (inputs : List Input) (body : Bytes)
    → length body ≤ max_error_bytes
    → read_error_body (broken p e ∷ inputs) body ≡ take max_error_bytes (body ++ p)
unfolding read_error_body
read_error_body-broken p e inputs body h =
    elim (room-cases max_error_bytes (length body) (length p) h) [
      | inl (full, same) ↦ rw full (
          sym (
            take-short max_error_bytes body p (omega arith)
            ∙ take-all max_error_bytes body (omega arith)))
      | inr (inl (open_, long, much)) ↦ rw (open_, long) (sym (take-front max_error_bytes body p h))
      | inr (inr (open_, short, fits)) ↦
          rw (open_, short)
            (sym (take-all max_error_bytes (body ++ p) (omega (arith, length-append body p))))
    ]

-- The end of the stream: nothing is added.
take-body :
    (body : Bytes) → length body ≤ max_error_bytes → body ≡ take max_error_bytes (body ++ [])
take-body body h =
    sym (ap (take max_error_bytes) (append-nil body) ∙ take-all max_error_bytes body h)

read_error_body-end : (body : Bytes) → read_error_body [] body ≡ body
unfolding read_error_body
read_error_body-end body = refl

read_error_body-cancelled :
    (e : Error) (inputs : List Input) (body : Bytes)
    → read_error_body (cancelled e ∷ inputs) body ≡ body
unfolding read_error_body
read_error_body-cancelled e inputs body = refl

read_error_body-take :
    (inputs : List Input) (body : Bytes)
    → length body ≤ max_error_bytes
    → read_error_body inputs body ≡ take max_error_bytes (body ++ upstream_text inputs)
unfolding upstream_text
read_error_body-take [] body h = read_error_body-end body ∙ take-body body h
read_error_body-take (cancelled e ∷ inputs) body h =
    read_error_body-cancelled e inputs body ∙ take-body body h
read_error_body-take (broken p e ∷ inputs) body h = read_error_body-broken p e inputs body h
read_error_body-take (read p ∷ inputs) body h =
    read_error_body-read p inputs body h (read_error_body-take inputs (body ++ p))

-- The body of an error message is the text of the stream up to its end or error, cut off after
-- 1 MiB.
pub read_error_body-upstream_text :
    (inputs : List Input) → read_error_body inputs [] ≡ take (2 ^ 20) (upstream_text inputs)
read_error_body-upstream_text inputs = read_error_body-take inputs [] (omega arith)

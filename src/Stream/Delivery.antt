-- ===== src/Stream/Delivery.antt =====
-- What the consumer of a converted stream may rely on.
use cpa_plugin_commandcode.Base.{
  ℕ, suc, Bytes, Bool, true, List, [], ◌∷◌, ◌++◌, map, length, flatten, is_empty, ltb, ◌≡◌, refl,
  sym, ap, ◌∙◌, inl, inr, Bool-cases, append_assoc, append-nil, ◌||◌,
}
use cpa_plugin_commandcode.Base.Trim.{trim_space}
use cpa_plugin_commandcode.Json.{Json}
use cpa_plugin_commandcode.Pool.{Error}
use cpa_plugin_commandcode.Stream.{
  Framing, apply, OutChunk, payload, failure, Input, read, broken, cancelled, split_lines,
  max_pending, normalize_line, emit, emit_lines, emit_error, convert,
}
use cpa_plugin_commandcode.Stream.Chunks.{
  IsPrefixOf, frame_of, frames_of, deliver, Fits, deliver-reads, convert-deliver,
}

-- However an upstream text is cut into reads, and whatever comes after it, a consumer that takes
-- every chunk is sent the same: the frames of the complete lines of the whole text, in order, and
-- then what follows from the bytes that are left. No line may be longer than 4 MiB.
pub convert-reads :
    (json : Json) (framing : Framing) (chunks : List Bytes) (ends : List Input)
    → Fits json framing (split_lines (flatten chunks))
    → let all = λ (n : ℕ). true in
      let x = split_lines (flatten chunks) in
      convert json framing all 0 (map read chunks ++ ends) []
      ≡ frames_of json framing x.0 ++ convert json framing all 0 ends x.1
convert-reads json framing chunks ends h =
    let all = λ (n : ℕ). true in
    let x = split_lines (flatten chunks) in
    convert-deliver json framing all (λ n. refl) (map read chunks ++ ends) 0 []
    ∙ deliver-reads json framing chunks ends [] tt h
    ∙ ap (λ t. frames_of json framing x.0 ++ t)
        (sym (convert-deliver json framing all (λ n. refl) ends 0 x.1))

IsPrefixOf-append : (a b c : List OutChunk) → IsPrefixOf b c → IsPrefixOf (a ++ b) (a ++ c)
IsPrefixOf-append a b c (rest, e) = (rest, ap (λ t. a ++ t) e ∙ sym (append_assoc a b rest))

module _ (json : Json) (framing : Framing) (taken : ℕ → Bool) where
  emit-prefix :
      (n : ℕ) (line : Bytes) (next : ℕ → List OutChunk) (out : List OutChunk)
      → ((m : ℕ) → IsPrefixOf (next m) out)
      → IsPrefixOf
          (emit json framing taken n (normalize_line json line) next)
          (frame_of json framing line ++ out)
  unfolding emit frame_of
  emit-prefix n line next out h =
      let frame = normalize_line json line in
      elim (Bool-cases (is_empty (trim_space frame))) [
        | inl blank ↦ rw blank (h n)
        | inr full ↦ elim (Bool-cases (taken n)) [
          | inl sent ↦
              rw (full, sent)
                (IsPrefixOf-append (payload (apply framing frame) ∷ []) _ _ (h (suc n)))
          | inr lost ↦ rw (full, lost) (_, refl)
        ]
      ]

  emit_lines-prefix :
      (n : ℕ) (lines : List Bytes) (next : ℕ → List OutChunk) (out : List OutChunk)
      → ((m : ℕ) → IsPrefixOf (next m) out)
      → IsPrefixOf
          (emit_lines json framing taken n lines next)
          (frames_of json framing lines ++ out)
  unfolding emit_lines frames_of
  emit_lines-prefix n [] next out h = h n
  emit_lines-prefix n (line ∷ lines) next out h =
      rw (append_assoc (frame_of json framing line) (frames_of json framing lines) out) (
        emit-prefix n line _ (frames_of json framing lines ++ out)
          (λ m. emit_lines-prefix m lines next out h))

  emit_error-prefix :
      (n : ℕ) (e : Error) → IsPrefixOf (emit_error json framing taken n e) (failure e ∷ [])
  unfolding emit_error
  emit_error-prefix n e = elim (Bool-cases (taken n || taken (suc n))) [
    | inl sent ↦ rw sent ([], refl)
    | inr lost ↦ rw lost (_, refl)
  ]

  read-prefix :
      (p : Bytes) (inputs : List Input) (n : ℕ) (pending : Bytes)
      → ((m : ℕ) (q : Bytes)
          → IsPrefixOf (convert json framing taken m inputs q) (deliver json framing inputs q))
      → IsPrefixOf
          (convert json framing taken n (read p ∷ inputs) pending)
          (deliver json framing (read p ∷ inputs) pending)
  unfolding convert deliver
  read-prefix p inputs n pending rest =
      let x = split_lines (pending ++ p) in
      elim (Bool-cases (ltb max_pending (length x.1))) [
        | inl long ↦
            rw long (emit_lines-prefix n x.0 _ _ (λ m. emit-prefix m x.1 _ _ (λ k. rest k [])))
        | inr short ↦ rw short (emit_lines-prefix n x.0 _ _ (λ m. rest m x.1))
      ]

  deliver-prefix :
      (inputs : List Input) (n : ℕ) (pending : Bytes)
      → IsPrefixOf
          (convert json framing taken n inputs pending)
          (deliver json framing inputs pending)
  deliver-prefix [] n pending =
      let (rest, e) = emit-prefix n pending (λ _. []) [] (λ _. ([], refl)) in
      unfold convert deliver in (rest, sym (append-nil (frame_of json framing pending)) ∙ e)
  deliver-prefix (cancelled e ∷ _) n pending = unfold convert deliver in emit_error-prefix n e
  deliver-prefix (broken _ e ∷ _) n pending = unfold convert deliver in emit_error-prefix n e
  deliver-prefix (read p ∷ inputs) n pending =
      read-prefix p inputs n pending (λ m q. deliver-prefix inputs m q)

-- Whenever the consumer stops taking chunks, what it has been sent is a prefix of what a consumer
-- that takes every chunk is sent.
pub convert-prefix :
    (json : Json) (framing : Framing) (taken : ℕ → Bool) (inputs : List Input)
    → IsPrefixOf
        (convert json framing taken 0 inputs [])
        (convert json framing (λ n. true) 0 inputs [])
convert-prefix json framing taken inputs =
    rw (convert-deliver json framing (λ n. true) (λ n. refl) inputs 0 [])
      (deliver-prefix json framing taken inputs 0 [])

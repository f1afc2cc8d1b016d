-- ===== src/Executor/Abandoned.antt =====
-- What `readStreamErrorBody` of executor.go leaves on the channel that it reads.
use cpa_plugin_commandcode.Base.{
  ℕ, ◌+◌, ◌-◌, ◌≤◌, ◌^◌, Bytes, false, not, List, [], ◌∷◌, ◌++◌, map, length, flatten, take, ltb,
  if◌then◌else◌, length-append, ◌≡◌, refl, sym, ap, ◌∙◌, append_assoc, inl, inr, Bool-cases, arith,
}
use cpa_plugin_commandcode.Stream.{Input, read, broken, cancelled}
use cpa_plugin_commandcode.Executor.{max_error_bytes, read_error_body}
use cpa_plugin_commandcode.Executor.ErrorBody.{
  upstream_text, take-short, read_error_body-upstream_text,
}

-- The inputs that `readStreamErrorBody` has not received when it returns, by the same tests as
-- `read_error_body`.
unfoldable pub error_body_left : List Input → Bytes → List Input
error_body_left [] body = []
error_body_left (cancelled e ∷ inputs) body =
    if not (ltb (length body) max_error_bytes) then cancelled e ∷ inputs else inputs
error_body_left (read p ∷ inputs) body =
    let left = error_body_left inputs (body ++ p) in
    if not (ltb (length body) max_error_bytes)
    then read p ∷ inputs
    else if ltb (max_error_bytes - length body) (length p)
    then inputs
    else left
error_body_left (broken p e ∷ inputs) body =
    if not (ltb (length body) max_error_bytes) then broken p e ∷ inputs else inputs

not_below : (a b : ℕ) → b ≤ a → ltb a b ≡ false
not_below a b h = ground arith

error_body_left-last :
    (parts : List Bytes) (z : Input) (body : Bytes)
    → max_error_bytes ≤ length body + length (flatten parts)
    → (rest : List Input) × (error_body_left (map read parts ++ z ∷ []) body ≡ rest ++ z ∷ [])
unfolding error_body_left
error_body_left-last [] (cancelled e) body h =
    ([], rw (not_below (length body) max_error_bytes (omega (arith, h))) refl)
error_body_left-last [] (read p) body h =
    ([], rw (not_below (length body) max_error_bytes (omega (arith, h))) refl)
error_body_left-last [] (broken p e) body h =
    ([], rw (not_below (length body) max_error_bytes (omega (arith, h))) refl)
error_body_left-last (p ∷ parts) z body h = elim (Bool-cases (ltb (length body) max_error_bytes)) [
  | inr full ↦ (read p ∷ map read parts, rw full refl)
  | inl room ↦ elim (Bool-cases (ltb (max_error_bytes - length body) (length p))) [
    | inl over ↦ (map read parts, rw (room, over) refl)
    | inr fits ↦
        rw (room, fits)
          (error_body_left-last parts z (body ++ p)
            (omega (arith, h, length-append body p, length-append p (flatten parts))))
  ]
]

upstream_text-reads :
    (parts : List Bytes) (inputs : List Input)
    → upstream_text (map read parts ++ inputs) ≡ flatten parts ++ upstream_text inputs
unfolding upstream_text
upstream_text-reads [] inputs = refl
upstream_text-reads (p ∷ parts) inputs =
    ap (λ t. p ++ t) (upstream_text-reads parts inputs)
    ∙ sym (append_assoc p (flatten parts) (upstream_text inputs))

-- If the reads before the last input carry at least 1 MiB, `readStreamErrorBody` gives their first
-- 1 MiB, and returns without having received the last input.
pub read_error_body-left :
    (parts : List Bytes) (z : Input)
    → 2 ^ 20 ≤ length (flatten parts)
    → (read_error_body (map read parts ++ z ∷ []) [] ≡ take (2 ^ 20) (flatten parts))
      × ((rest : List Input) × (error_body_left (map read parts ++ z ∷ []) [] ≡ rest ++ z ∷ []))
read_error_body-left parts z h = (
  read_error_body-upstream_text (map read parts ++ z ∷ [])
      ∙ ap (take (2 ^ 20)) (upstream_text-reads parts (z ∷ []))
      ∙ take-short (2 ^ 20) (flatten parts) (upstream_text (z ∷ [])) h,
  error_body_left-last parts z [] (omega (arith, h)),
)

-- ===== src/Reasoning/Paths.antt =====
-- The paths of the fields that `mapReasoningBody` sets are different for different choices and for
-- the two messages of a choice.
use cpa_plugin_commandcode.Base.{
  ℕ, ◌<◌, ◌^◌, Bytes, codes, [], ◌∷◌, ◌++◌, pos, All, drop, get_or, ◌≡◌, ◌≢◌, refl, sym, ap, ◌∙◌,
  arith,
}
use cpa_plugin_commandcode.Reasoning.{itoa, content_path}
use cpa_plugin_commandcode.Reasoning.Itoa.{decimal, IsDigit, itoa-decimal}

-- A text of digits in front of a dot is determined.
digits-dot :
    (s t p q : Bytes) → All IsDigit s → All IsDigit t → s ++ b'.' ∷ p ≡ t ++ b'.' ∷ q → s ≡ t
digits-dot [] [] p q h k e = refl
digits-dot [] (c ∷ t) p q h ((low, _), k) e = absurd (ground arith)
digits-dot (c ∷ s) [] p q ((low, _), h) k e = absurd (ground arith)
digits-dot (c ∷ s) (d ∷ t) p q (_, h) (_, k) e =
    let same : c ≡ d = cc e in
    let rest : s ++ b'.' ∷ p ≡ t ++ b'.' ∷ q = cc e in
    let tail = digits-dot s t p q h k rest in cc (same, tail)

pub content_path-index :
    (i j : ℕ) (field other : Bytes)
    → i < 2 ^ 63
    → j < 2 ^ 63
    → content_path i field ≡ content_path j other
    → i ≡ j
content_path-index i j field other h k e =
    let (read_i, digits_i) = itoa-decimal i h in
    let (read_j, digits_j) = itoa-decimal j k in
    let same = digits-dot (itoa (pos i)) (itoa (pos j)) _ _ digits_i digits_j (ap (drop 8) e) in
    sym read_i ∙ ap (decimal 0) same ∙ read_j

append-cancel : (s p q : Bytes) → s ++ p ≡ s ++ q → p ≡ q
append-cancel [] p q e = e
append-cancel (c ∷ s) p q e = append-cancel s p q (cc e)

pub content_path-field : (i : ℕ) → content_path i (codes "delta") ≢ content_path i (codes "message")
content_path-field i e =
    let rest = append-cancel (itoa (pos i)) _ _ (ap (drop 8) e) in
    absurd (omega (arith, ap (λ (s : Bytes). get_or s 1 0) rest))

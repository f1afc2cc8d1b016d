-- ===== src/Stream/Lines.antt =====
-- Cutting into lines, however the bytes arrive.
use cpa_plugin_commandcode.Base.{
  ℕ, suc, ◌≤◌, Bytes, List, [], ◌∷◌, ◌++◌, length, flatten, ◌==◌, Lacks, ◌≡◌, ◌≢◌, refl, ap, ◌∙◌,
  inl, inr, arith, Bool-cases,
}
use cpa_plugin_commandcode.Stream.{push_byte, split_lines}

-- What is split of `b` behind lines that are complete.
abbrev pub behind : List Bytes → List Bytes × Bytes → List Bytes × Bytes
behind ls (ms, q) = (ls ++ ms, q)

split_lines-cons : (c : ℕ) (s : Bytes) → split_lines (c ∷ s) ≡ push_byte c (split_lines s)
unfolding split_lines
split_lines-cons c s = refl

-- A newline makes a line of its own.
push_newline : (x : List Bytes × Bytes) → push_byte 10 x ≡ ((10 ∷ []) ∷ x.0, x.1)
unfolding push_byte
push_newline ([], left) = refl
push_newline (line ∷ lines, left) = refl

push_byte-behind :
    (c : ℕ) (ls : List Bytes) (r b : Bytes)
    → let x = push_byte c (ls, r) in
      push_byte c (behind ls (split_lines (r ++ b))) ≡ behind x.0 (split_lines (x.1 ++ b))
push_byte-behind c [] r b = elim (Bool-cases (c == 10)) [
  | inl newline ↦
      let same : c ≡ 10 = ground arith in rw same (rw push_newline (rw push_newline refl))
  | inr other ↦
      let kept : push_byte c ([], r) ≡ ([], c ∷ r) = unfold push_byte in rw other refl in
      rw kept (unfold split_lines in refl)
]
push_byte-behind c (l ∷ ls) r b = unfold push_byte in ground arith

-- Splitting can stop and go on: the complete lines of `a`, and then the lines of what was left of
-- it with `b` behind.
pub split_lines-append :
    (a b : Bytes)
    → split_lines (a ++ b) ≡ behind (split_lines a).0 (split_lines ((split_lines a).1 ++ b))
split_lines-append [] b = unfold split_lines in refl
split_lines-append (c ∷ a) b =
    split_lines-cons c (a ++ b)
    ∙ ap (push_byte c) (split_lines-append a b)
    ∙ push_byte-behind c (split_lines a).0 (split_lines a).1 b
    ∙ rw (split_lines-cons c a) refl

-- The pieces, put together again.
abbrev pub joined : List Bytes × Bytes → Bytes
joined (lines, left) = flatten lines ++ left

joined-push_byte : (c : ℕ) (x : List Bytes × Bytes) → joined (push_byte c x) ≡ c ∷ joined x
unfolding push_byte
joined-push_byte c ([], left) = ground arith
joined-push_byte c (line ∷ lines, left) = ground arith

-- No byte is lost.
pub joined-split_lines : (s : Bytes) → joined (split_lines s) ≡ s
joined-split_lines [] = unfold split_lines in refl
joined-split_lines (c ∷ s) =
    ap joined (split_lines-cons c s)
    ∙ joined-push_byte c (split_lines s)
    ∙ ap (λ l. c ∷ l) (joined-split_lines s)

Lacks-push_byte : (c : ℕ) (x : List Bytes × Bytes) → Lacks 10 x.1 → Lacks 10 (push_byte c x).1
unfolding push_byte
Lacks-push_byte c ([], left) h = ground arith
Lacks-push_byte c (line ∷ lines, left) h = ground arith

-- What is left holds no newline.
pub split_lines-Lacks : (s : Bytes) → Lacks 10 (split_lines s).1
split_lines-Lacks [] = unfold split_lines in tt
split_lines-Lacks (c ∷ s) =
    rw (split_lines-cons c s) (Lacks-push_byte c (split_lines s) (split_lines-Lacks s))

-- The length of the first piece, complete or not.
abbrev pub first_length : List Bytes × Bytes → ℕ
first_length ([], left) = length left
first_length (line ∷ lines, left) = length line

first_length-push_byte :
    (c : ℕ) (x : List Bytes × Bytes) → c ≢ 10 → first_length (push_byte c x) ≡ suc (first_length x)
unfolding push_byte
first_length-push_byte c ([], left) h = ground arith
first_length-push_byte c (line ∷ lines, left) h = ground arith

pub length-le-first : (r b : Bytes) → Lacks 10 r → length r ≤ first_length (split_lines (r ++ b))
length-le-first [] b h = omega arith
length-le-first (c ∷ r) b (p, h) =
    rw (split_lines-cons c (r ++ b))
      (omega (arith, first_length-push_byte c (split_lines (r ++ b)) p, length-le-first r b h))

pub split_lines_of_Lacks : (s : Bytes) → Lacks 10 s → split_lines s ≡ ([], s)
unfolding split_lines push_byte
split_lines_of_Lacks [] h = refl
split_lines_of_Lacks (c ∷ s) (p, h) = rw (split_lines_of_Lacks s h) (ground arith)

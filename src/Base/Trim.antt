-- ===== src/Base/Trim.antt =====
-- `strings.TrimSpace` and `bytes.TrimSpace`: the runes of unicode.IsSpace, in UTF-8, are dropped at
-- both ends. A byte sequence that begins or ends in one of these encodings decodes to that rune.
use Prim.Native.Nat.{ℕ, zero, suc, ◌+◌, ◌≤◌}
use mathlib.Core.Path.{◌≡◌, refl, sym, ap, ◌∙◌}
use mathlib.Core.Logic.{◌⊎◌, inl, inr}
use mathlib.Core.Bool.{Bool, ◌&&◌, ◌||◌}
use mathlib.Core.List.{[], ◌∷◌, ◌++◌, reverse, reverse-append, reverse-reverse, reverse_aux}
use native.Mathlib.Omega.{arith}
use cpa_plugin_commandcode.Base.Lists.{length, length-append}
use cpa_plugin_commandcode.Base.Tests.{◌==◌, leb, if◌then◌else◌}
use cpa_plugin_commandcode.Base.Text.{Bytes}

-- The space, and the bytes 9 to 13.
unfoldable pub space_1 : ℕ → Bool
space_1 a = a == 32 || (leb 9 a && leb a 13)

-- U+0085 and U+00A0.
space_2 : ℕ → ℕ → Bool
space_2 a b = a == 0xC2 && (b == 0x85 || b == 0xA0)

-- U+1680, U+2000 to U+200A, U+2028, U+2029, U+202F, U+205F and U+3000.
space_3 : ℕ → ℕ → ℕ → Bool
space_3 a b c =
    (a == 0xE1 && b == 0x9A && c == 0x80)
    || (a == 0xE2
        && b == 0x80
        && ((leb 0x80 c && leb c 0x8A) || c == 0xA8 || c == 0xA9 || c == 0xAF))
    || (a == 0xE2 && b == 0x81 && c == 0x9F)
    || (a == 0xE3 && b == 0x80 && c == 0x80)

-- The length of the white-space rune at the front, 0 if there is none.
unfoldable pub front_space : Bytes → ℕ
unfolding space_1 space_2 space_3
front_space [] = 0
front_space (a ∷ []) = if space_1 a then 1 else 0
front_space (a ∷ b ∷ []) = if space_1 a then 1 else if space_2 a b then 2 else 0
front_space (a ∷ b ∷ c ∷ s) =
    if space_1 a then 1 else if space_2 a b then 2 else if space_3 a b c then 3 else 0

-- The same at the end of a text, which is given reversed.
unfoldable pub back_space : Bytes → ℕ
unfolding space_1 space_2 space_3
back_space [] = 0
back_space (a ∷ []) = if space_1 a then 1 else 0
back_space (a ∷ b ∷ []) = if space_1 a then 1 else if space_2 b a then 2 else 0
back_space (a ∷ b ∷ c ∷ s) =
    if space_1 a then 1 else if space_2 b a then 2 else if space_3 c b a then 3 else 0

-- Drop `k` bytes, then runs of bytes as long as `width` finds one.
unfoldable pub strip : (Bytes → ℕ) → ℕ → Bytes → Bytes
strip width k [] = []
strip width (suc k) (x ∷ s) = strip width k s
strip width zero (x ∷ s) = elim (width (x ∷ s)) [ zero ↦ x ∷ s | suc k ↦ strip width k s ]

unfoldable pub trim_left : Bytes → Bytes
unfolding strip front_space
trim_left s = strip front_space 0 s

unfoldable pub trim_right : Bytes → Bytes
unfolding strip back_space
trim_right s = reverse (strip back_space 0 (reverse s))

unfoldable pub trim_space : Bytes → Bytes
unfolding trim_left trim_right
trim_space s = trim_right (trim_left s)

-- No white space at either end.
pub record IsTrimmed (s : Bytes) : Type 0 where
  pub front : front_space s ≡ 0
  pub back : back_space (reverse s) ≡ 0

pub zero-or-suc : (n : ℕ) → (n ≡ 0) ⊎ ((k : ℕ) × (n ≡ suc k))
zero-or-suc zero = inl refl
zero-or-suc (suc k) = inr (k, refl)

strip_of_zero : (width : Bytes → ℕ) (s : Bytes) → width s ≡ 0 → strip width 0 s ≡ s
unfolding strip
strip_of_zero width [] h = refl
strip_of_zero width (x ∷ s) h = rw (h, strip) refl

strip-zero : (width : Bytes → ℕ) → width [] ≡ 0 → (k : ℕ) (s : Bytes) → width (strip width k s) ≡ 0
unfolding strip
strip-zero width e k [] = e
strip-zero width e (suc k) (x ∷ s) = strip-zero width e k s
strip-zero width e zero (x ∷ s) = elim (zero-or-suc (width (x ∷ s))) [
  | inl none_here ↦ rw (none_here, strip) none_here
  | inr (k, some_here) ↦ rw (some_here, strip) (strip-zero width e k s)
]

strip-suffix : (width : Bytes → ℕ) (k : ℕ) (s : Bytes) → (p : Bytes) × (s ≡ p ++ strip width k s)
unfolding strip
strip-suffix width k [] = ([], refl)
strip-suffix width (suc k) (x ∷ s) =
    let (p, e) = strip-suffix width k s in (x ∷ p, ap (λ l. x ∷ l) e)
strip-suffix width zero (x ∷ s) = elim (zero-or-suc (width (x ∷ s))) [
  | inl none_here ↦ rw (none_here, strip) ([], refl)
  | inr (k, some_here) ↦
      let (p, e) = strip-suffix width k s in rw (some_here, strip) (x ∷ p, ap (λ l. x ∷ l) e)
]

front_space-prefix : (s t : Bytes) → front_space (s ++ t) ≡ 0 → front_space s ≡ 0
unfolding front_space
front_space-prefix [] t h = refl
front_space-prefix (a ∷ []) [] h = h
front_space-prefix (a ∷ []) (b ∷ []) h = ground arith
front_space-prefix (a ∷ []) (b ∷ c ∷ t) h = ground arith
front_space-prefix (a ∷ b ∷ []) [] h = h
front_space-prefix (a ∷ b ∷ []) (c ∷ t) h = ground arith
front_space-prefix (a ∷ b ∷ c ∷ s) t h = h

-- `TrimSpace` leaves white space at neither end.
pub trim_space-IsTrimmed : (s : Bytes) → IsTrimmed (trim_space s)
unfolding trim_space
trim_space-IsTrimmed s =
    let r = reverse (trim_left s) in
    let (p, spelled) = strip-suffix back_space 0 r in
    let whole : trim_left s ≡ reverse (strip back_space 0 r) ++ reverse p =
      sym (reverse-reverse (trim_left s)) ∙ ap reverse spelled ∙ reverse-append p _ in
    record {
      front =
          front_space-prefix (reverse (strip back_space 0 r)) (reverse p)
            (rw (← whole) (strip-zero front_space (unfold front_space in refl) 0 s));
      back = rw reverse-reverse (strip-zero back_space (unfold back_space in refl) 0 r);
    }

pub trim_space_of_IsTrimmed : (s : Bytes) → IsTrimmed s → trim_space s ≡ s
unfolding trim_space
trim_space_of_IsTrimmed s t =
    rw (strip_of_zero front_space s t.front, strip_of_zero back_space (reverse s) t.back)
      (reverse-reverse s)

pub trim_space_idem : (s : Bytes) → trim_space (trim_space s) ≡ trim_space s
trim_space_idem s = trim_space_of_IsTrimmed _ (trim_space-IsTrimmed s)

length-reverse_aux : (s t : Bytes) → length (reverse_aux s t) ≡ length s + length t
length-reverse_aux [] t = omega arith
length-reverse_aux (x ∷ s) t = omega (arith, length-reverse_aux s (x ∷ t))

length-strip : (width : Bytes → ℕ) (k : ℕ) (s : Bytes) → length (strip width k s) ≤ length s
length-strip width k s =
    let (p, e) = strip-suffix width k s in
    omega (arith, ap length e, length-append p (strip width k s))

pub length-trim_space : (s : Bytes) → length (trim_space s) ≤ length s
unfolding trim_space
length-trim_space s =
    let r = reverse (trim_left s) in
    omega (
      arith,
      length-reverse_aux (strip back_space 0 r) [],
      length-strip back_space 0 r,
      length-reverse_aux (trim_left s) [],
      length-strip front_space 0 s,
    )

front_space-newline : (x : ℕ) (s : Bytes) → front_space ((x ∷ s) ++ 10 ∷ []) ≡ front_space (x ∷ s)
unfolding front_space
front_space-newline x [] = ground arith
front_space-newline x (b ∷ []) = ground arith
front_space-newline x (b ∷ c ∷ s) = refl

front_space-le-length : (s : Bytes) → front_space s ≤ length s
unfolding front_space
front_space-le-length [] = omega arith
front_space-le-length (a ∷ []) = ground arith
front_space-le-length (a ∷ b ∷ []) = ground arith
front_space-le-length (a ∷ b ∷ c ∷ s) = ground arith

-- A newline behind a text that is not empty.
abbrev newline_behind : Bytes → Bytes
newline_behind [] = []
newline_behind (x ∷ s) = (x ∷ s) ++ 10 ∷ []

strip-newline :
    (k : ℕ) (s : Bytes)
    → k ≤ length s
    → strip front_space k (s ++ 10 ∷ []) ≡ newline_behind (strip front_space k s)
unfolding strip
strip-newline zero [] h = unfold front_space in refl
strip-newline (suc k) [] h = absurd (omega arith)
strip-newline (suc k) (x ∷ s) h = strip-newline k s (omega arith)
strip-newline zero (x ∷ s) h = elim (zero-or-suc (front_space (x ∷ s))) [
  | inl none_here ↦ rw (strip, front_space-newline x s, none_here) refl
  | inr (k, some_here) ↦
      rw (strip, front_space-newline x s, some_here)
        (strip-newline k s (omega (arith, front_space-le-length (x ∷ s))))
]

back_space-newline : (s : Bytes) → back_space (10 ∷ s) ≡ 1
unfolding back_space
back_space-newline [] = refl
back_space-newline (a ∷ []) = refl
back_space-newline (a ∷ b ∷ s) = refl

trim_right-newline : (s : Bytes) → trim_right (newline_behind s) ≡ trim_right s
unfolding trim_right
trim_right-newline [] = refl
trim_right-newline (x ∷ s) =
    rw (reverse-append (x ∷ s) (10 ∷ []), strip, back_space-newline (reverse (x ∷ s))) refl

-- `TrimSpace` drops a newline at the end.
pub trim_space-newline : (s : Bytes) → trim_space (s ++ 10 ∷ []) ≡ trim_space s
unfolding trim_space
trim_space-newline s = rw (strip-newline 0 s (omega arith)) (trim_right-newline (trim_left s))

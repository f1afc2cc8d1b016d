-- ===== src/Base/Text.antt =====
-- Go strings and byte slices as lists of bytes.
use Prim.Native.Nat.{ℕ, ◌+◌}
use Prim.Native.Char.{code}
use Prim.Native.String.{String}
use mathlib.Core.Path.{◌≡◌, refl, ap}
use mathlib.Core.Logic.{◌≢◌, ◌↔◌, inl, inr}
use mathlib.Core.Bool.{Bool, true, false, ◌&&◌, ◌||◌}
use mathlib.Core.Option.{Option, none, some}
use mathlib.Core.List.{List, [], ◌∷◌, ◌++◌, map}
use native.Mathlib.Omega.{arith}
use cpa_plugin_commandcode.Base.Tests.{◌==◌, leb, if◌then◌else◌, Option-cases}
use cpa_plugin_commandcode.Base.Lists.{All}

abbrev pub Bytes : Type 0
Bytes = List ℕ

-- The bytes of an ASCII literal.
abbrev pub codes : String → Bytes
codes String.[] = []
codes (String.◌∷◌ c s) = code c ∷ codes s

-- `s == t` on strings.
unfoldable pub bytes_eq : Bytes → Bytes → Bool
bytes_eq [] [] = true
bytes_eq [] (y ∷ t) = false
bytes_eq (x ∷ s) [] = false
bytes_eq (x ∷ s) (y ∷ t) = (x == y) && bytes_eq s t

pub bytes_eq-eq : (s t : Bytes) → bytes_eq s t ≡ true → s ≡ t
unfolding bytes_eq
bytes_eq-eq [] [] h = refl
bytes_eq-eq [] (y ∷ t) h = cc
bytes_eq-eq (x ∷ s) [] h = cc
bytes_eq-eq (x ∷ s) (y ∷ t) h = ground (arith, bytes_eq-eq s t)

pub bytes_eq_self : (s : Bytes) → bytes_eq s s ≡ true
unfolding bytes_eq
bytes_eq_self [] = refl
bytes_eq_self (x ∷ s) = ground (arith, bytes_eq_self s)

pub bytes_eq_iff : (s t : Bytes) → (bytes_eq s t ≡ true) ↔ (s ≡ t)
bytes_eq_iff s t = (bytes_eq-eq s t, λ e. rw e (bytes_eq_self t))

-- `strings.HasPrefix(s, p)`
unfoldable pub has_prefix : Bytes → Bytes → Bool
has_prefix s [] = true
has_prefix [] (y ∷ p) = false
has_prefix (x ∷ s) (y ∷ p) = (x == y) && has_prefix s p

pub has_prefix-append : (p s : Bytes) → has_prefix (p ++ s) p ≡ true
unfolding has_prefix
has_prefix-append [] s = unfold has_prefix in refl
has_prefix-append (x ∷ p) s = ground (arith, has_prefix-append p s)

-- `strings.Contains(s, p)`
unfoldable pub contains : Bytes → Bytes → Bool
unfolding has_prefix
contains [] p = has_prefix [] p
contains (x ∷ s) p = has_prefix (x ∷ s) p || contains s p

-- `strings.ToLower` on ASCII; bytes from 128 on are left as they are.
unfoldable pub lower_byte : ℕ → ℕ
lower_byte c = if leb b'A' c && leb c b'Z' then c + 32 else c

unfoldable pub to_lower : Bytes → Bytes
unfolding lower_byte
to_lower s = map lower_byte s

-- `s[:i]` for the first index i of a byte, `none` where the byte is missing.
unfoldable pub before_first : ℕ → Bytes → Option Bytes
before_first b [] = none
before_first b (x ∷ s) =
    let rest = before_first b s in
    if x == b then some [] else elim rest [ none ↦ none | some t ↦ some (x ∷ t) ]

-- `s[i+1:]` for the last index i of a byte, `none` where the byte is missing.
unfoldable pub after_last : ℕ → Bytes → Option Bytes
after_last b [] = none
after_last b (x ∷ s) = elim (after_last b s) [
  | none ↦ if x == b then some s else none
  | some t ↦ some t
]

-- No byte of the text is `b`.
abbrev pub Lacks : ℕ → Bytes → Type 0
Lacks b = All (λ c. c ≢ b)

pub after_last_of_Lacks : (b : ℕ) (s : Bytes) → Lacks b s → after_last b s ≡ none
unfolding after_last
after_last_of_Lacks b [] h = refl
after_last_of_Lacks b (x ∷ s) (p, h) = rw (after_last_of_Lacks b s h) (ground arith)

pub after_last-append : (b : ℕ) (p s : Bytes) → Lacks b s → after_last b (p ++ b ∷ s) ≡ some s
unfolding after_last
after_last-append b [] s h = rw (after_last_of_Lacks b s h) (ground arith)
after_last-append b (x ∷ p) s h = rw (after_last-append b p s h)

pub after_last-none : (b : ℕ) (s : Bytes) → after_last b s ≡ none → Lacks b s
unfolding after_last
after_last-none b [] e = tt
after_last-none b (x ∷ s) e = elim (Option-cases (after_last b s)) [
  | inl missed ↦ (ground arith, after_last-none b s missed)
  | inr (t, found) ↦ absurd (ground arith)
]

-- What follows the last `b` holds no `b`, and the text ends in it.
pub after_last-some :
    (b : ℕ) (s t : Bytes) → after_last b s ≡ some t → Lacks b t × ((p : Bytes) × (s ≡ p ++ b ∷ t))
unfolding after_last
after_last-some b [] t e = absurd (cc)
after_last-some b (x ∷ s) t e = elim (Option-cases (after_last b s)) [
  | inl missed ↦
      let same : t ≡ s = ground arith in (rw same (after_last-none b s missed), ([], ground arith))
  | inr (u, found) ↦
      let (lacks, (p, spelled)) = after_last-some b s u found in
      let same : t ≡ u = ground arith in (rw same lacks, (x ∷ p, rw same (ap (λ l. x ∷ l) spelled)))
]

pub before_first_of_Lacks : (b : ℕ) (s : Bytes) → Lacks b s → before_first b s ≡ none
unfolding before_first
before_first_of_Lacks b [] h = refl
before_first_of_Lacks b (x ∷ s) (p, h) = rw (before_first_of_Lacks b s h) (ground arith)

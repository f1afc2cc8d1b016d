-- ===== src/Config/Order.antt =====
-- The order of the entries of a configuration, config.go.
use cpa_plugin_commandcode.Base.{
  Bytes, Bool, true, false, ◌||◌, Option, none, some, List, [], ◌∷◌, ◌≡◌, ◌≢◌, refl, sym, ap, ◌∙◌,
  ◌⊎◌, inl, inr, any, bytes_eq, bytes_eq_self, Option-cases, arith,
}
use mathlib.Core.List.{Perm, Permᴰ}
use mathlib.Core.Logic.{∥∥₁_elim}
use mathlib.Core.Bool.{Bool-set}
use cpa_plugin_commandcode.Config.{ModelEntry}
use cpa_plugin_commandcode.Config.Index.{rewrite_of, newer, last_rewrite}

or_swap : (x y z : Bool) → (x || (y || z)) ≡ (y || (x || z))
or_swap true true z = refl
or_swap true false z = refl
or_swap false true z = refl
or_swap false false z = refl

any-Permᴰ {ℓ} : {A : Type ℓ} (p : A → Bool) {xs ys : List A} → Permᴰ xs ys → any p xs ≡ any p ys
any-Permᴰ p Permᴰ.nil = refl
any-Permᴰ p (Permᴰ.cons e d) = rw (e, any-Permᴰ p d) refl
any-Permᴰ p (Permᴰ.swap {a} {b} {l = l} e f) = rw (← e, ← f) (or_swap (p a) (p b) (any p l))
any-Permᴰ p (Permᴰ.trans d e) = any-Permᴰ p d ∙ any-Permᴰ p e

-- A test that some element passes does not look at the order.
pub any-Perm {ℓ} : {A : Type ℓ} (p : A → Bool) {xs ys : List A} → Perm xs ys → any p xs ≡ any p ys
any-Perm p {xs} {ys} same = ∥∥₁_elim same (Bool-set (any p xs) (any p ys)) (any-Permᴰ p)

-- The entry rewrites `k` to `n`.
abbrev pub rewrites_to : Bytes → Bytes → ModelEntry → Bool
rewrites_to k n e = elim (rewrite_of e k) [ none ↦ false | some m ↦ bytes_eq m n ]

-- No two of the entries rewrite one name to different ones.
abbrev pub Agree : List ModelEntry → Type 0
Agree es =
    (k n m : Bytes) → any (rewrites_to k n) es ≡ true → any (rewrites_to k m) es ≡ true → n ≡ m

last_rewrite-any :
    (es : List ModelEntry) (k n : Bytes) (d : Option Bytes)
    → last_rewrite es k d ≡ some n
    → (any (rewrites_to k n) es ≡ true) ⊎ (d ≡ some n)
last_rewrite-any [] k n d h = inr h
last_rewrite-any (e ∷ es) k n d h =
    ground (arith, last_rewrite-any es k n (newer (rewrite_of e k) d) h, bytes_eq_self n)

last_rewrite-some :
    (es : List ModelEntry) (k n : Bytes) → (m : Bytes) × (last_rewrite es k (some n) ≡ some m)
last_rewrite-some [] k n = (n, refl)
last_rewrite-some (e ∷ es) k n = elim (Option-cases (rewrite_of e k)) [
  | inl other ↦ rw other (last_rewrite-some es k n)
  | inr (m, mine) ↦ rw mine (last_rewrite-some es k m)
]

any-last_rewrite :
    (es : List ModelEntry) (k n : Bytes)
    → any (rewrites_to k n) es ≡ true
    → (m : Bytes) × (last_rewrite es k none ≡ some m)
any-last_rewrite [] k n h = absurd (cc h)
any-last_rewrite (e ∷ es) k n h = elim (Option-cases (rewrite_of e k)) [
  | inl other ↦ rw other (any-last_rewrite es k n (rw (rewrites_to, other) at h))
  | inr (m, mine) ↦ rw mine (last_rewrite-some es k m)
]

found_by :
    (es : List ModelEntry) (k n : Bytes)
    → last_rewrite es k none ≡ some n
    → any (rewrites_to k n) es ≡ true
found_by es k n h = elim (last_rewrite-any es k n none h) [
  | inl found ↦ found
  | inr e ↦ absurd (cc e)
]

not_none :
    (es : List ModelEntry) (k n : Bytes)
    → any (rewrites_to k n) es ≡ true
    → last_rewrite es k none ≢ none
not_none es k n found h = let (m, e) = any-last_rewrite es k n found in cc (e, h)

-- Entries that agree rewrite a name alike in any order.
pub last_rewrite-Perm :
    {es fs : List ModelEntry}
    → Perm es fs
    → Agree es
    → (k : Bytes) → last_rewrite es k none ≡ last_rewrite fs k none
last_rewrite-Perm {es} {fs} same agree k = elim (Option-cases (last_rewrite es k none)) [
  | inl e ↦ elim (Option-cases (last_rewrite fs k none)) [
    | inl f ↦ e ∙ sym f
    | inr (m, f) ↦ absurd (not_none es k m (any-Perm (rewrites_to k m) same ∙ found_by fs k m f) e)
  ]
  | inr (n, e) ↦ elim (Option-cases (last_rewrite fs k none)) [
    | inl f ↦ absurd (not_none fs k n (sym (any-Perm (rewrites_to k n) same) ∙ found_by es k n e) f)
    | inr (m, f) ↦
        e
        ∙ ap some
            (agree k n m (found_by es k n e) (any-Perm (rewrites_to k m) same ∙ found_by fs k m f))
        ∙ sym f
  ]
]

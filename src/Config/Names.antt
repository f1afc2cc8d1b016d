-- ===== src/Config/Names.antt =====
-- What `normalizeModel` does to a name.
use mathlib.Core.List.{reverse_aux, reverse-append, reverse-cons}
use cpa_plugin_commandcode.Base.{
  ℕ, zero, suc, ◌≤◌, Bytes, none, some, [], ◌∷◌, ◌++◌, All, Lacks, reverse, append_assoc, ◌≡◌, refl,
  ◌⊎◌, inl, inr, arith, after_last, before_first, to_lower, Option-cases, after_last-some,
  after_last-none,
}
use cpa_plugin_commandcode.Base.Trim.{
  trim_space, strip, front_space, back_space, IsTrimmed, zero-or-suc, trim_space_of_IsTrimmed,
  trim_space_idem,
}
use cpa_plugin_commandcode.Config.{drop_suffix, normalize_model, or_else}

module _ (P : ℕ → Type 0) where
  All-reverse_aux : (s t : Bytes) → All P s → All P t → All P (reverse_aux s t)
  All-reverse_aux [] t _ h = h
  All-reverse_aux (x ∷ s) t (p, h) k = All-reverse_aux s (x ∷ t) h (p, k)

  All-strip : (width : Bytes → ℕ) (k : ℕ) (s : Bytes) → All P s → All P (strip width k s)
  unfolding strip
  All-strip width k [] h = tt
  All-strip width (suc k) (x ∷ s) h = All-strip width k s h.1
  All-strip width zero (x ∷ s) h = elim (zero-or-suc (width (x ∷ s))) [
    | inl e ↦ rw (e, strip) h
    | inr (k, e) ↦ rw (e, strip) (All-strip width k s h.1)
  ]

  pub All-trim_space : (s : Bytes) → All P s → All P (trim_space s)
  unfolding trim_space
  All-trim_space s h =
      All-reverse_aux _ []
        (All-strip back_space 0 _ (All-reverse_aux _ [] (All-strip front_space 0 s h) tt)) tt

pub before_first-Lacks : (b : ℕ) (s t : Bytes) → before_first b s ≡ some t → Lacks b t
unfolding before_first
before_first-Lacks b [] t e = absurd (cc)
before_first-Lacks b (x ∷ s) [] e = tt
before_first-Lacks b (x ∷ s) (y ∷ t) e = elim (Option-cases (before_first b s)) [
  | inl missed ↦ absurd (ground arith)
  | inr (u, found) ↦ ground (arith, before_first-Lacks b s u found)
]

before_first-none : (b : ℕ) (s : Bytes) → before_first b s ≡ none → Lacks b s
unfolding before_first
before_first-none b [] e = tt
before_first-none b (x ∷ s) e = elim (Option-cases (before_first b s)) [
  | inl missed ↦ (ground arith, before_first-none b s missed)
  | inr (u, found) ↦ absurd (ground arith)
]

-- A byte of the front part is a byte of the whole.
before_first-All :
    (P : ℕ → Type 0) (b : ℕ) (s t : Bytes) → before_first b s ≡ some t → All P s → All P t
unfolding before_first
before_first-All P b [] t e h = absurd (cc)
before_first-All P b (x ∷ s) [] e h = tt
before_first-All P b (x ∷ s) (y ∷ t) e (p, h) = elim (Option-cases (before_first b s)) [
  | inl missed ↦ absurd (ground arith)
  | inr (u, found) ↦
      let same_x : y ≡ x = ground arith in
      let same : t ≡ u = ground arith in rw (same_x, same) (p, before_first-All P b s u found h)
]

-- A model name that routing and rewriting compare: no provider prefix, no alias suffix.
pub record IsPlainName (s : Bytes) : Type 0 where
  pub no_slash : Lacks b'/' s
  pub no_paren : Lacks b'(' s
  pub no_upper : All (λ c. ¬ ((b'A' ≤ c) × (c ≤ b'Z'))) s

-- What `drop_suffix` gives on each branch.
drop_suffix-cases :
    (s : Bytes)
    → (Lacks b'(' s × (drop_suffix s ≡ s))
      ⊎ ((t : Bytes) × (before_first b'(' s ≡ some t) × (drop_suffix s ≡ trim_space t))
unfolding drop_suffix
drop_suffix-cases s = elim (Option-cases (before_first b'(' s)) [
  | inl missed ↦ inl (before_first-none b'(' s missed, rw (missed, drop_suffix))
  | inr (t, found) ↦ inr (t, found, rw (found, drop_suffix))
]

drop_suffix-Lacks : (s : Bytes) → Lacks b'(' (drop_suffix s)
drop_suffix-Lacks s = elim (drop_suffix-cases s) [
  | inl (lacks, same) ↦ rw same lacks
  | inr (t, found, cut) ↦ rw cut (All-trim_space _ t (before_first-Lacks b'(' s t found))
]

drop_suffix-All : (P : ℕ → Type 0) (s : Bytes) → All P s → All P (drop_suffix s)
drop_suffix-All P s h = elim (drop_suffix-cases s) [
  | inl (lacks, same) ↦ rw same h
  | inr (t, found, cut) ↦ rw cut (All-trim_space P t (before_first-All P b'(' s t found h))
]

after_last-Lacks : (b : ℕ) (s : Bytes) → Lacks b (or_else (after_last b s) s)
after_last-Lacks b s = elim (Option-cases (after_last b s)) [
  | inl missed ↦ rw missed (after_last-none b s missed)
  | inr (t, found) ↦ rw found ((after_last-some b s t found).0)
]

to_lower-IsPlainName : (s : Bytes) → Lacks b'/' s → Lacks b'(' s → IsPlainName (to_lower s)
unfolding to_lower
to_lower-IsPlainName [] _ _ = record { no_slash = tt; no_paren = tt; no_upper = tt }
to_lower-IsPlainName (x ∷ s) (p, h) (q, k) =
    let r = to_lower-IsPlainName s h k in
    record {
      no_slash = (ground arith, r.no_slash);
      no_paren = (ground arith, r.no_paren);
      no_upper = (ground arith, r.no_upper);
    }

-- A normalised name holds no slash, no opening parenthesis and no capital letter.
pub normalize_model-IsPlainName : (s : Bytes) → IsPlainName (normalize_model s)
unfolding normalize_model
normalize_model-IsPlainName s =
    let m = trim_space s in
    let base = or_else (after_last b'/' m) m in
    to_lower-IsPlainName (drop_suffix base) (drop_suffix-All _ base (after_last-Lacks b'/' m))
      (drop_suffix-Lacks base)

after_last-append_any :
    (b : ℕ) (p s : Bytes) → after_last b (p ++ b ∷ s) ≡ some (or_else (after_last b s) s)
unfolding after_last
after_last-append_any b [] s = ground arith
after_last-append_any b (x ∷ p) s = rw (after_last-append_any b p s)

-- A slash ends no white space and begins none.
front_space-slash : (p s : Bytes) → front_space p ≡ 0 → front_space (p ++ b'/' ∷ s) ≡ 0
unfolding front_space
front_space-slash [] [] h = refl
front_space-slash [] (x ∷ []) h = refl
front_space-slash [] (x ∷ y ∷ s) h = refl
front_space-slash (a ∷ []) [] h = ground arith
front_space-slash (a ∷ []) (x ∷ s) h = ground arith
front_space-slash (a ∷ b ∷ []) s h = ground arith
front_space-slash (a ∷ b ∷ c ∷ p) s h = h

back_space-slash : (p s : Bytes) → back_space p ≡ 0 → back_space (p ++ b'/' ∷ s) ≡ 0
unfolding back_space
back_space-slash [] [] h = refl
back_space-slash [] (x ∷ []) h = ground arith
back_space-slash [] (x ∷ y ∷ s) h = ground arith
back_space-slash (a ∷ []) [] h = ground arith
back_space-slash (a ∷ []) (x ∷ s) h = ground arith
back_space-slash (a ∷ b ∷ []) s h = ground arith
back_space-slash (a ∷ b ∷ c ∷ p) s h = h

pub prefixed-IsTrimmed : (p m : Bytes) → front_space p ≡ 0 → IsTrimmed m → IsTrimmed (p ++ b'/' ∷ m)
prefixed-IsTrimmed p m h t = record {
  front = front_space-slash p m h;
  back =
      rw (reverse-append p (b'/' ∷ m), reverse-cons b'/' m, append_assoc)
        (back_space-slash (reverse m) (reverse p) t.back);
}

-- A provider prefix changes nothing: "p/m" and "m" have the same normal form, if p begins with no
-- white space and m has white space at neither end.
pub normalize_model-prefix :
    (p m : Bytes)
    → front_space p ≡ 0
    → IsTrimmed m
    → normalize_model (p ++ b'/' ∷ m) ≡ normalize_model m
unfolding normalize_model
normalize_model-prefix p m h t = rw (
  trim_space_of_IsTrimmed _ (prefixed-IsTrimmed p m h t),
  trim_space_of_IsTrimmed m t,
  after_last-append_any b'/' p m,
)

pub normalize_model-trim_space : (s : Bytes) → normalize_model (trim_space s) ≡ normalize_model s
unfolding normalize_model
normalize_model-trim_space s = rw trim_space_idem

-- ===== src/Pool/Order.antt =====
-- The order of the pool members is a permutation of all of them.
use mathlib.Core.List.{Perm, cons-ne-nil}
use mathlib.Core.List.Perm
use cpa_plugin_commandcode.Base.{
  ℕ, zero, suc, ◌+◌, ◌-◌, ◌%◌, ◌^◌, ◌≤◌, ◌<◌, true, false, none, some, List, [], ◌∷◌, All, ◌==◌,
  leb, length, ◌≡◌, ◌≢◌, refl, ap, arith, Option-cases, inl, inr,
}
use cpa_plugin_commandcode.Config.{ApiKeyEntry, norm_weight}
use cpa_plugin_commandcode.Pool.{weight_at, indices_from, total, pick, take_out, order_from, order}

module _ (weight : ℕ → ℕ) where
  -- The pick is a position of the list when the draw is below the sum of the weights.
  pub pick-lt :
      (is : List ℕ) (r k : ℕ)
      → r < total weight is
      → (k ≤ pick weight is r k) × (pick weight is r k < k + length is)
  unfolding pick total
  pick-lt [] r k h = absurd (omega arith)
  pick-lt (i ∷ is) r k h = ground (arith, pick-lt is (r - weight i) (suc k))

  total-pos : (is : List ℕ) → All (λ i. 0 < weight i) is → is ≢ [] → 0 < total weight is
  unfolding total
  total-pos [] h k = absurd (k refl)
  total-pos (i ∷ is) (p, h) k = omega arith

take_out-zero :
    (i : ℕ) (is : List ℕ) {j : ℕ} {rest : List ℕ}
    → take_out zero (i ∷ is) ≡ some (j, rest)
    → (i ≡ j) × (is ≡ rest)
unfolding take_out
take_out-zero i is h = ground arith

-- The later positions: the head stays in the rest.
take_out-suc :
    (k i : ℕ) (is : List ℕ) {j : ℕ} {rest : List ℕ}
    → take_out (suc k) (i ∷ is) ≡ some (j, rest)
    → (others : List ℕ) × (take_out k is ≡ some (j, others)) × (rest ≡ i ∷ others)
unfolding take_out
take_out-suc k i is {j} {rest} h = elim (Option-cases (take_out k is)) [
  | inl missed ↦ absurd (ground arith)
  | inr ((j', others), found) ↦ (others, ground arith, ground arith)
]

take_out-some :
    (k : ℕ) (is : List ℕ)
    → k < length is
    → (j : ℕ) × (rest : List ℕ) × (take_out k is ≡ some (j, rest))
unfolding take_out
take_out-some k [] h = absurd (omega arith)
take_out-some zero (i ∷ is) h = (i, is, refl)
take_out-some (suc k) (i ∷ is) h =
    let (j, rest, found) = take_out-some k is (omega arith) in (j, i ∷ rest, rw (found, take_out))

-- What `take_out` keeps: every element once, so the length, the sum and what holds of all.
pub take_out-Perm :
    (k : ℕ) (is : List ℕ) {j : ℕ} {rest : List ℕ}
    → take_out k is ≡ some (j, rest)
    → Perm is (j ∷ rest)
take_out-Perm k [] h = unfold take_out in absurd (cc h)
take_out-Perm zero (i ∷ is) {j} {rest} h =
    let (head, tail) = take_out-zero i is h in rw (head, tail) (Perm.refl (j ∷ rest))
take_out-Perm (suc k) (i ∷ is) {j} h =
    let (others, found, same) = take_out-suc k i is h in
    rw same (Perm.trans (Perm.cons i (take_out-Perm k is found)) (Perm.swap j i others))

module _ (weight : ℕ → ℕ) where
  take_out-total :
      (k : ℕ) (is : List ℕ) {j : ℕ} {rest : List ℕ}
      → take_out k is ≡ some (j, rest)
      → (total weight is ≡ weight j + total weight rest) × (length is ≡ suc (length rest))
  unfolding total
  take_out-total k [] h = unfold take_out in absurd (cc h)
  take_out-total zero (i ∷ is) h = unfold take_out in ground arith
  take_out-total (suc k) (i ∷ is) h =
      let (others, found, same) = take_out-suc k i is h in ground (arith, take_out-total k is found)

  take_out-All :
      (P : ℕ → Type 0) (k : ℕ) (is : List ℕ) {j : ℕ} {rest : List ℕ}
      → take_out k is ≡ some (j, rest)
      → All P is
      → All P rest
  take_out-All P k [] h a = unfold take_out in absurd (cc h)
  take_out-All P zero (i ∷ is) h (p, a) = rw (take_out-zero i is h).1 at a
  take_out-All P (suc k) (i ∷ is) h (p, a) =
      let (others, found, same) = take_out-suc k i is h in rw same (p, take_out-All P k is found a)

  order_from-step :
      (n : ℕ) (draws : ℕ → ℕ) (is : List ℕ) {j : ℕ} {rest out : List ℕ}
      → 0 < total weight is
      → total weight is < 2 ^ 63
      → take_out (pick weight is (draws 0 % total weight is) 0) is ≡ some (j, rest)
      → order_from weight n (λ i. draws (suc i)) rest ≡ some out
      → order_from weight (suc n) draws is ≡ some (j ∷ out)
  unfolding order_from
  order_from-step n draws is p q found later =
      let fits : total weight is % 2 ^ 64 ≡ total weight is = omega arith in
      let not_zero : (total weight is == 0) ≡ false = ground arith in
      let positive : leb (2 ^ 63) (total weight is) ≡ false = ground arith in
      rw (fits, not_zero, positive, found, later)

  order_from-Perm :
      (n : ℕ) (draws : ℕ → ℕ) (is : List ℕ)
      → length is ≡ n
      → All (λ i. 0 < weight i) is
      → total weight is < 2 ^ 63
      → (out : List ℕ) × (order_from weight n draws is ≡ some out) × Perm out is
  order_from-Perm zero draws [] h a b = ([], unfold order_from in refl, Perm.refl [])
  order_from-Perm zero draws (i ∷ is) h a b = absurd (omega arith)
  order_from-Perm (suc n) draws [] h a b = absurd (omega arith)
  order_from-Perm (suc n) draws (i ∷ l) h a b =
      let is = i ∷ l in
      let some_weight = total-pos weight is a (cons-ne-nil i l) in
      let (_, below) = pick-lt weight is (draws 0 % total weight is) 0 (omega arith) in
      let (j, rest, found) = take_out-some _ is (omega (arith, below)) in
      let (sum, shorter) = take_out-total _ is found in
      let (out, done, perm) =
        order_from-Perm n (λ k. draws (suc k)) rest (omega (arith, shorter, h))
          (take_out-All _ _ is found a) (omega (arith, sum, b)) in
      (
        j ∷ out,
        order_from-step n draws is some_weight b found done,
        Perm.trans (Perm.cons j perm) (Perm.symm (take_out-Perm _ is found)),
      )

norm_weight-pos : (en : ApiKeyEntry) → 0 < norm_weight en
unfolding norm_weight
norm_weight-pos en = ground arith

-- An index below the number of members.
abbrev pub IsIndex : List ApiKeyEntry → ℕ → Type 0
IsIndex ms i = i < length ms

weight_at-pos : (ms : List ApiKeyEntry) (i : ℕ) → i < length ms → 0 < weight_at ms i
unfolding weight_at
weight_at-pos [] i h = absurd (omega arith)
weight_at-pos (m ∷ ms) zero h = norm_weight-pos m
weight_at-pos (m ∷ ms) (suc i) h = weight_at-pos ms i (omega arith)

indices_from-All :
    (P : ℕ → Type 0) (i n : ℕ) → ((k : ℕ) → k < i + n → P k) → All P (indices_from i n)
unfolding indices_from
indices_from-All P i zero h = tt
indices_from-All P i (suc n) h =
    (h i (omega arith), indices_from-All P (suc i) n (λ k lt. h k (omega arith)))

length-indices_from : (i n : ℕ) → length (indices_from i n) ≡ n
unfolding indices_from
length-indices_from i zero = refl
length-indices_from i (suc n) = ap suc (length-indices_from (suc i) n)

-- The sum of the members' weights.
unfoldable pub total_weight : List ApiKeyEntry → ℕ
total_weight ms = total (weight_at ms) (indices_from 0 (length ms))

-- Whatever the generator draws, `order` does not panic and lists every member index exactly once,
-- as long as the weights add up to less than 2^63.
pub order-Perm :
    (draws : ℕ → ℕ) (ms : List ApiKeyEntry)
    → total_weight ms < 2 ^ 63
    → (out : List ℕ) × (order draws ms ≡ some out) × Perm out (indices_from 0 (length ms))
unfolding order total_weight
order-Perm draws ms h =
    order_from-Perm (weight_at ms) (length ms) draws (indices_from 0 (length ms))
      (length-indices_from 0 (length ms))
      (indices_from-All _ 0 (length ms) (λ k lt. weight_at-pos ms k (omega (arith, lt)))) h

-- Where the weights of a pool with a member add up to 2^63 or more, but less than 2^64, the sum has
-- wrapped around to a negative int64 and `order` panics, whatever the generator draws.
pub order-overflow :
    (draws : ℕ → ℕ) (m : ApiKeyEntry) (ms : List ApiKeyEntry)
    → 2 ^ 63 ≤ total_weight (m ∷ ms)
    → total_weight (m ∷ ms) < 2 ^ 64
    → order draws (m ∷ ms) ≡ none
unfolding order total_weight order_from
order-overflow draws m ms h k =
    let is = indices_from 0 (length (m ∷ ms)) in
    let w = weight_at (m ∷ ms) in
    let fits : total w is % 2 ^ 64 ≡ total w is = omega arith in
    let negative : leb (2 ^ 63) (total w is) ≡ true = ground arith in
    let not_zero : (total w is == 0) ≡ false = ground arith in rw (fits, not_zero, negative)

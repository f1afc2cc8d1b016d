-- ===== src/Pool/Pick.antt =====
-- The weights of the first choice: which draws pick which position.
use cpa_plugin_commandcode.Base.{
  ℕ, zero, suc, ◌+◌, ◌-◌, ◌≤◌, ◌<◌, List, [], ◌∷◌, length, take, ◌≡◌, ◌↔◌, arith,
}
use cpa_plugin_commandcode.Pool.{total, pick}
use cpa_plugin_commandcode.Pool.Order.{pick-lt}

module _ (weight : ℕ → ℕ) where
  -- The weights in front of position `k` add up to no more than the draw, those up to `k` to more.
  abbrev pub IsHit : List ℕ → ℕ → ℕ → Type 0
  IsHit is k r = (total weight (take k is) ≤ r) × (r < total weight (take (suc k) is))

  pick-IsHit :
      (is : List ℕ) (r b k : ℕ)
      → r < total weight is
      → k < length is
      → (pick weight is r b ≡ b + k) ↔ IsHit is k r
  unfolding pick total
  pick-IsHit [] r b k h l = absurd (omega arith)
  pick-IsHit (i ∷ is) r b zero h l = ground (arith, pick-lt weight is (r - weight i) (suc b))
  pick-IsHit (i ∷ is) r b (suc k) h l =
      ground
        (arith, pick-lt weight is (r - weight i) (suc b), pick-IsHit is (r - weight i) (suc b) k)

  -- A draw below the sum of the weights picks position `k` exactly if it lies in the `k`-th of the
  -- consecutive intervals that are as long as the weights: so `weight` many of the draws pick it.
  pub pick_iff :
      (is : List ℕ) (r k : ℕ)
      → r < total weight is
      → k < length is
      → (pick weight is r 0 ≡ k) ↔ IsHit is k r
  pick_iff is r k h l =
      let (to, from) = pick-IsHit is r 0 k h l in
      (λ e. to (omega arith), λ p. omega (arith, from p))

-- ===== src/Executor/Statuses.antt =====
-- The failover loop over the members of a pool, in any order of their indices.
use mathlib.Core.List.{Mem, Perm, mem-cons, not-mem-nil}
use mathlib.Core.List.Perm
use mathlib.Core.Logic.Or
use native.Mathlib.Bridge.{le_prop}
use cpa_plugin_commandcode.Base.{
  ℕ, zero, suc, ◌+◌, ◌≤◌, ◌<◌, ◌^◌, Bool, true, none, some, List, [], ◌∷◌, length, ◌≡◌, ◌⊎◌, inl,
  inr, arith,
}
use cpa_plugin_commandcode.Config.{ApiKeyEntry, PluginConfig}
use cpa_plugin_commandcode.Json.{Json}
use cpa_plugin_commandcode.Pool.{Auth, members, indices_from, Net, Doer, Clients}
use cpa_plugin_commandcode.Pool.Clients.{Reach, Reach-IsCoherent}
use cpa_plugin_commandcode.Pool.Order.{total_weight}
use cpa_plugin_commandcode.Executor.{Outcome, Attempt, failover}
use cpa_plugin_commandcode.Executor.Verdict.{Verdict, verdict, first_end, failover-first_end}
use cpa_plugin_commandcode.Executor.Failover.{
  is_done, succeeds, goes_on, retry_status, failure_status, first_end-done, first_end-status_cons,
}

mem_indices-lt : (k i n : ℕ) → Mem k (indices_from i n) → k < i + n
unfolding indices_from
mem_indices-lt k i zero h = absurd (not-mem-nil h)
mem_indices-lt k i (suc n) h =
    Or.elim le_prop (mem-cons.0 h) (λ same. omega arith)
      (λ there. omega (arith, mem_indices-lt k (suc i) n there))

mem_indices_of_lt : (k i n : ℕ) → i ≤ k → k < i + n → Mem k (indices_from i n)
unfolding indices_from
mem_indices_of_lt k i zero h l = absurd (omega arith)
mem_indices_of_lt k i (suc n) h l = elim (eq-or-lt k i h) [
  | inl same ↦ mem-cons.1 (Or.inl same)
  | inr later ↦ mem-cons.1 (Or.inr (mem_indices_of_lt k (suc i) n later (omega arith)))
]
  where
    eq-or-lt : (k i : ℕ) → i ≤ k → (k ≡ i) ⊎ (suc i ≤ k)
    eq-or-lt k i h = omega arith

-- A loop over the members in the order that is drawn.
module _ (json : Json) {A : Type 0} (net : Net) (c : PluginConfig) (req : Auth) (host : Bool)
    (attempt : ℕ → ApiKeyEntry → Doer net → Attempt A) (ended : ℕ → Bool) (draws : ℕ → ℕ)
    (clients : Clients net) (reached : Reach net c clients)
    (fits : total_weight (members (some c) req) < 2 ^ 63) where
  abbrev ms : List ApiKeyEntry
  ms = members (some c) req

  abbrev pub verdict_of : ℕ → ℕ → Verdict A
  verdict_of = verdict json net ms host attempt ended

  abbrev pub run : List ℕ → Outcome A
  run out = (failover json net ms host attempt ended 0 out clients none).0

  run-first_end : (out : List ℕ) → run out ≡ first_end json net ms host attempt ended 0 out none
  run-first_end out =
      failover-first_end json net c req host attempt ended 0 out clients none
        (Reach-IsCoherent net c reached)

  pub run-done :
      (out : List ℕ)
      → Perm out (indices_from 0 (length ms))
      → (i : ℕ) → i < length ms
      → ((k : ℕ) → succeeds (verdict_of k i) ≡ true)
      → ((k j : ℕ) → j < length ms → goes_on (verdict_of k j) ≡ true)
      → is_done (run out) ≡ true
  run-done out p i l works others = rw (run-first_end out) (
      first_end-done json net ms host attempt ended out i 0 none
        ((Perm.mem_iff p).1 (mem_indices_of_lt i 0 (length ms) (omega arith) (omega arith))) works
        (λ k j m.
          others k j (omega (arith, mem_indices-lt j 0 (length ms) ((Perm.mem_iff p).0 m)))))

  pub run-status :
      (out : List ℕ)
      → Perm out (indices_from 0 (length ms))
      → (s : ℕ) → 0 < length ms
      → ((k j : ℕ) → j < length ms → retry_status (verdict_of k j) ≡ some s)
      → failure_status (run out) ≡ some s
  run-status [] p s l h = absurd (
      not-mem-nil
        ((Perm.mem_iff p).1 (mem_indices_of_lt 0 0 (length ms) (omega arith) (omega arith))))
  run-status (j ∷ out) p s l h = rw (run-first_end (j ∷ out)) (
      first_end-status_cons json net ms host attempt ended j out s 0 none
        (λ k i m. h k i (omega (arith, mem_indices-lt i 0 (length ms) ((Perm.mem_iff p).0 m)))))

-- ===== src/Executor/Failover.antt =====
-- What the failover achieves, whatever order is drawn.
use mathlib.Core.Bool.{Bool-set, false≢true}
use mathlib.Core.List.{Mem, mem-cons, not-mem-nil}
use mathlib.Core.Logic.Or
use cpa_plugin_commandcode.Base.{
  ℕ, suc, Bool, true, false, Option, none, some, List, [], ◌∷◌, ◌≡◌, refl,
}
use cpa_plugin_commandcode.Config.{ApiKeyEntry}
use cpa_plugin_commandcode.Json.{Json}
use cpa_plugin_commandcode.Pool.{Error, Net, Doer}
use cpa_plugin_commandcode.Executor.{Outcome, done, failed, panic, Attempt}
use cpa_plugin_commandcode.Executor.Verdict.{
  Verdict, retry, ends, verdict, first_end, exhausted, outcome_of, first_end-cons,
}

-- Whether a call succeeds.
abbrev pub is_done {ℓ} : {A : Type ℓ} → Outcome A → Bool
is_done (done a) = true
is_done (failed e) = false
is_done panic = false

-- Whether a member's call succeeds.
abbrev pub succeeds : {A : Type 0} → Verdict A → Bool
succeeds (retry e) = false
succeeds (ends o) = is_done o

-- Whether it succeeds or leaves the call to the next member.
abbrev pub goes_on : {A : Type 0} → Verdict A → Bool
goes_on (retry e) = true
goes_on (ends o) = is_done o

-- The status of an error that leaves the call to the next member.
abbrev pub retry_status : {A : Type 0} → Verdict A → Option ℕ
retry_status (retry e) = e.status
retry_status (ends o) = none

-- The status with which a call fails.
abbrev pub failure_status {ℓ} : {A : Type ℓ} → Outcome A → Option ℕ
failure_status (done a) = none
failure_status (failed e) = e.status
failure_status panic = none

succeeds-outcome :
    {A : Type 0} (v : Verdict A) (later : Error → Outcome A)
    → succeeds v ≡ true
    → is_done (outcome_of v later) ≡ true
succeeds-outcome (retry e) later h = absurd (false≢true h)
succeeds-outcome (ends o) later h = h

goes_on-outcome :
    {A : Type 0} (v : Verdict A) (later : Error → Outcome A)
    → goes_on v ≡ true
    → ((e : Error) → is_done (later e) ≡ true)
    → is_done (outcome_of v later) ≡ true
goes_on-outcome (retry e) later h k = k e
goes_on-outcome (ends o) later h k = h

module _ (json : Json) {A : Type 0} (net : Net) (ms : List ApiKeyEntry) (host : Bool)
    (attempt : ℕ → ApiKeyEntry → Doer net → Attempt A) (ended : ℕ → Bool) where
  -- If one member of an order succeeds in every round, and no other ends the call with a failure,
  -- the call succeeds.
  pub first_end-done :
      (out : List ℕ) (i n : ℕ) (last : Option Error)
      → Mem i out
      → ((k : ℕ) → succeeds (verdict json net ms host attempt ended k i) ≡ true)
      → ((k j : ℕ) → Mem j out → goes_on (verdict json net ms host attempt ended k j) ≡ true)
      → is_done (first_end json net ms host attempt ended n out last) ≡ true
  first_end-done [] i n last h works others = absurd (not-mem-nil h)
  first_end-done (j ∷ out) i n last h works others =
      let later = λ (e : Error). first_end json net ms host attempt ended (suc n) out (some e) in
      let v = verdict json net ms host attempt ended n j in
      rw (first_end-cons json net ms host attempt ended n j out last) (
        Or.elim (Bool-set _ _) (mem-cons.0 h)
          (λ same. succeeds-outcome v later (rw (← same) (works n)))
          (λ there. goes_on-outcome v later (others n j (mem-cons.1 (Or.inl refl))) (λ e.
            first_end-done out i (suc n) (some e) there works
              (λ k l m. others k l (mem-cons.1 (Or.inr m))))))

  retry-outcome :
      (v : Verdict A) (s : ℕ) (later : Error → Outcome A)
      → retry_status v ≡ some s
      → ((e : Error) → e.status ≡ some s → failure_status (later e) ≡ some s)
      → failure_status (outcome_of v later) ≡ some s
  retry-outcome (retry e) s later h k = k e h
  retry-outcome (ends o) s later h k = absurd (cc h)

  -- If every member of an order fails with a status and leaves the call to the next one, the call
  -- fails with this status.
  pub first_end-status :
      (out : List ℕ) (s n : ℕ) (last : Error)
      → last.status ≡ some s
      → ((k j : ℕ) → Mem j out → retry_status (verdict json net ms host attempt ended k j) ≡ some s)
      → failure_status (first_end json net ms host attempt ended n out (some last)) ≡ some s
  first_end-status [] s n last e h = unfold first_end exhausted in e
  first_end-status (j ∷ out) s n last e h =
      rw (first_end-cons json net ms host attempt ended n j out (some last)) (
        retry-outcome (verdict json net ms host attempt ended n j) s
          (λ x. first_end json net ms host attempt ended (suc n) out (some x))
          (h n j (mem-cons.1 (Or.inl refl)))
          (λ d same.
            first_end-status out s (suc n) d same (λ k l m. h k l (mem-cons.1 (Or.inr m)))))

  pub first_end-status_cons :
      (j : ℕ) (out : List ℕ) (s n : ℕ) (last : Option Error)
      → ((k l : ℕ)
          → Mem l (j ∷ out)
          → retry_status (verdict json net ms host attempt ended k l) ≡ some s)
      → failure_status (first_end json net ms host attempt ended n (j ∷ out) last) ≡ some s
  first_end-status_cons j out s n last h =
      rw (first_end-cons json net ms host attempt ended n j out last) (
        retry-outcome (verdict json net ms host attempt ended n j) s
          (λ x. first_end json net ms host attempt ended (suc n) out (some x))
          (h n j (mem-cons.1 (Or.inl refl)))
          (λ d same.
            first_end-status out s (suc n) d same (λ k l m. h k l (mem-cons.1 (Or.inr m)))))

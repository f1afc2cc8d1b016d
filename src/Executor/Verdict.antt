-- ===== src/Executor/Verdict.antt =====
-- The failover loop against a specification that looks at one member at a time.
use mathlib.Core.Path.{fun_ext}
use cpa_plugin_commandcode.Base.{
  ℕ, suc, codes, Bool, not, ◌&&◌, Option, none, some, List, [], ◌∷◌, ◌⊎◌, inl, inr, ltb, leb,
  if◌then◌else◌, get_elem?, ◌≡◌, refl, sym, ap, ◌∙◌, arith, Option-cases,
}
use cpa_plugin_commandcode.Config.{ApiKeyEntry, PluginConfig}
use cpa_plugin_commandcode.Json.{Json}
use cpa_plugin_commandcode.Pool.{Auth, Error, members, retryable, Net, Doer, Clients, client_for}
use cpa_plugin_commandcode.Pool.Clients.{IsCoherent, client_for-IsCoherent}
use cpa_plugin_commandcode.Pool.Doers.{own_doer, client_for-own_doer}
use cpa_plugin_commandcode.Executor.{
  Outcome, done, failed, panic, Attempt, status_error, conclude, proceed, round, failover,
}

-- What becomes of a round: the next member is tried, or the call ends.
pub data Verdict (A : Type 0) : Type 0 where
  retry : Error → Verdict A
  ends : Outcome A → Verdict A

module _ (json : Json) {A : Type 0} where
  -- The verdict on an upstream call, where the context has ended behind it or not.
  unfoldable pub judge : Bool → Attempt A → Verdict A
  unfolding status_error retryable
  judge ended a = elim a.error [
    | some e ↦ if ended then ends (failed e) else retry e
    | none ↦
        let e = status_error json a.status [] a.error_body in
        if leb 200 a.status && ltb a.status 300
        then ends (done a.response)
        else if retryable a.status none && not ended
        then retry e
        else ends (failed e)
  ]

  -- The answer when every member has been tried.
  unfoldable pub exhausted : Option Error → Outcome A
  unfolding status_error
  exhausted (some e) = failed e
  exhausted none =
      failed (status_error json 502 (codes "commandcode executor: all pool members failed") [])

  module _ (net : Net) (ms : List ApiKeyEntry) (host : Bool)
      (attempt : ℕ → ApiKeyEntry → Doer net → Attempt A) (ended : ℕ → Bool) where
    -- The verdict on a member, in the n-th round, with its client.
    unfoldable pub member_verdict : ℕ → ApiKeyEntry → Error ⊎ Doer net → Verdict A
    unfolding judge
    member_verdict n m (inl e) = retry e
    member_verdict n m (inr d) = judge (ended n) (attempt n m d)

    -- The verdict on the member at an index, with the member's own client.
    unfoldable pub verdict : ℕ → ℕ → Verdict A
    unfolding member_verdict
    verdict n idx = elim (get_elem? ms idx) [
      | none ↦ ends panic
      | some m ↦ member_verdict n m (own_doer net m host)
    ]

    -- The first verdict that ends the call decides.
    unfoldable pub first_end : ℕ → List ℕ → Option Error → Outcome A
    unfolding exhausted
    first_end n [] last = exhausted last
    first_end n (idx ∷ rest) last = elim (verdict n idx) [
      | retry e ↦ first_end (suc n) rest (some e)
      | ends o ↦ o
    ]

    -- One round of the loop, for each way in which it can go.
    pub first_end-retry :
        (n idx : ℕ) (rest : List ℕ) (last : Option Error) {e : Error}
        → verdict n idx ≡ retry e
        → first_end n (idx ∷ rest) last ≡ first_end (suc n) rest (some e)
    unfolding first_end
    first_end-retry n idx rest last h = rw (h, first_end)

    pub first_end-ends :
        (n idx : ℕ) (rest : List ℕ) (last : Option Error) {o : Outcome A}
        → verdict n idx ≡ ends o
        → first_end n (idx ∷ rest) last ≡ o
    unfolding first_end
    first_end-ends n idx rest last h = rw (h, first_end)

-- What the end of a round does, by its verdict.
abbrev pub after {ℓ} :
    {A : Type 0} {C : Type ℓ} → Verdict A → C → (Error → Outcome A × C) → Outcome A × C
after (retry e) c next = next e
after (ends o) c next = (o, c)

pub conclude-judge {ℓ} :
    (json : Json) {A : Type 0} {C : Type ℓ} (ended : Bool) (a : Attempt A) (c : C)
    (next : Error → Outcome A × C)
    → conclude json ended a c next ≡ after (judge json ended a) c next
unfolding conclude judge retryable
conclude-judge json ended a c next = ground arith

-- The outcome of a verdict, from that of the rounds behind it.
abbrev pub outcome_of : {A : Type 0} → Verdict A → (Error → Outcome A) → Outcome A
outcome_of (retry e) next = next e
outcome_of (ends o) next = o

after-outcome {ℓ} :
    {A : Type 0} {C : Type ℓ} (v : Verdict A) (c : C) (next : Error → Outcome A × C)
    → (after v c next).0 ≡ outcome_of v (λ e. (next e).0)
after-outcome (retry e) c next = refl
after-outcome (ends o) c next = refl

module _ (json : Json) {A : Type 0} (net : Net) (ms : List ApiKeyEntry) (host : Bool)
    (attempt : ℕ → ApiKeyEntry → Doer net → Attempt A) (ended : ℕ → Bool) where
  proceed-verdict :
      (n : ℕ) (m : ApiKeyEntry) (o : Error ⊎ Doer net) (clients : Clients net)
      (next : Clients net → Error → Outcome A × Clients net)
      → (proceed json net ms host attempt ended n m o clients next).0
        ≡ outcome_of (member_verdict json net ms host attempt ended n m o) (λ e. (next clients e).0)
  unfolding proceed member_verdict
  proceed-verdict n m (inl e) clients next = refl
  proceed-verdict n m (inr d) clients next =
      ap (λ x. x.0) (conclude-judge json (ended n) (attempt n m d) clients (next clients))
      ∙ after-outcome (judge json (ended n) (attempt n m d)) clients (next clients)

  round-some :
      (n idx : ℕ) (clients : Clients net) (next : Clients net → Error → Outcome A × Clients net)
      (m : ApiKeyEntry)
      → get_elem? ms idx ≡ some m
      → let x = client_for net idx m host clients in
        round json net ms host attempt ended n idx clients next
        ≡ proceed json net ms host attempt ended n m x.0 x.1 next
  unfolding round
  round-some n idx clients next m seen = rw (seen, round)

  pub verdict-some :
      (n idx : ℕ) (m : ApiKeyEntry)
      → get_elem? ms idx ≡ some m
      → verdict json net ms host attempt ended n idx
        ≡ member_verdict json net ms host attempt ended n m (own_doer net m host)
  unfolding verdict
  verdict-some n idx m seen = rw (seen, verdict)

  -- An index out of range is a panic, on both sides.
  round-missed :
      (n idx : ℕ) (clients : Clients net) (next : Clients net → Error → Outcome A × Clients net)
      (later : Error → Outcome A)
      → get_elem? ms idx ≡ none
      → (round json net ms host attempt ended n idx clients next).0
        ≡ outcome_of (verdict json net ms host attempt ended n idx) later
  unfolding round verdict
  round-missed n idx clients next later missed =
      let panics : round json net ms host attempt ended n idx clients next ≡ (panic, clients) =
        rw (missed, round) in
      let ended_there : verdict json net ms host attempt ended n idx ≡ ends panic =
        rw (missed, verdict) in
      ap (λ x. x.0) panics ∙ ap (λ v. outcome_of v later) (sym ended_there)

  round-member :
      (n idx : ℕ) (clients : Clients net) (next : Clients net → Error → Outcome A × Clients net)
      (m : ApiKeyEntry)
      → get_elem? ms idx ≡ some m
      → (client_for net idx m host clients).0 ≡ own_doer net m host
      → (round json net ms host attempt ended n idx clients next).0
        ≡ outcome_of
            (verdict json net ms host attempt ended n idx)
            (λ e. (next (client_for net idx m host clients).1 e).0)
  round-member n idx clients next m seen own =
      let clients' = (client_for net idx m host clients).1 in
      ap (λ x. x.0) (round-some n idx clients next m seen)
      ∙ ap (λ o. (proceed json net ms host attempt ended n m o clients' next).0) own
      ∙ proceed-verdict n m (own_doer net m host) clients' next
      ∙ ap (λ v. outcome_of v (λ e. (next clients' e).0)) (sym (verdict-some n idx m seen))

  pub first_end-cons :
      (n idx : ℕ) (rest : List ℕ) (last : Option Error)
      → first_end json net ms host attempt ended n (idx ∷ rest) last
        ≡ outcome_of
            (verdict json net ms host attempt ended n idx)
            (λ e. first_end json net ms host attempt ended (suc n) rest (some e))
  unfolding first_end
  first_end-cons n idx rest last = ground arith

  pub failover-cons :
      (n idx : ℕ) (rest : List ℕ) (clients : Clients net) (last : Option Error)
      → failover json net ms host attempt ended n (idx ∷ rest) clients last
        ≡ round json net ms host attempt ended n idx clients
            (λ clients' e. failover json net ms host attempt ended (suc n) rest clients' (some e))
  unfolding failover
  failover-cons n idx rest clients last = refl

module _ (json : Json) {A : Type 0} (net : Net) (c : PluginConfig) (req : Auth) (host : Bool)
    (attempt : ℕ → ApiKeyEntry → Doer net → Attempt A) (ended : ℕ → Bool) where
  -- The loop is the specification: from clients that are coherent, as those of a pool always are,
  -- the outcome is decided by the first member whose verdict ends the call.
  pub failover-first_end :
      (n : ℕ) (out : List ℕ) (clients : Clients net) (last : Option Error)
      → IsCoherent net c clients
      → (failover json net (members (some c) req) host attempt ended n out clients last).0
        ≡ first_end json net (members (some c) req) host attempt ended n out last
  failover-first_end n [] clients none coherent = unfold failover first_end in refl
  failover-first_end n [] clients (some e) coherent = unfold failover first_end in refl
  failover-first_end n (idx ∷ rest) clients last coherent =
      let ms = members (some c) req in
      elim (Option-cases (get_elem? ms idx)) [
        | inl missed ↦
            ap (λ x. x.0) (failover-cons json net ms host attempt ended n idx rest clients last)
            ∙ round-missed json net ms host attempt ended n idx clients _
                (λ e. first_end json net ms host attempt ended (suc n) rest (some e)) missed
            ∙ sym (first_end-cons json net ms host attempt ended n idx rest last)
        | inr (m, seen) ↦
            let own = client_for-own_doer net c req idx m host clients seen coherent in
            let kept = (client_for-IsCoherent net c req idx m host clients seen coherent).1 in
            let clients' = (client_for net idx m host clients).1 in
            ap (λ x. x.0) (failover-cons json net ms host attempt ended n idx rest clients last)
            ∙ round-member json net ms host attempt ended n idx clients _ m seen own
            ∙ ap (outcome_of (verdict json net ms host attempt ended n idx))
                (fun_ext (λ e. failover-first_end (suc n) rest clients' (some e) kept))
            ∙ sym (first_end-cons json net ms host attempt ended n idx rest last)
      ]

-- ===== src/Executor/Kept.antt =====
-- The clients that a call of the executor leaves behind.
use cpa_plugin_commandcode.Base.{
  ℕ, suc, Bool, Option, none, some, List, [], ◌∷◌, ◌⊎◌, inl, inr, is_empty, get_elem?, ◌≡◌, refl,
  arith, Bool-cases, Option-cases,
}
use cpa_plugin_commandcode.Config.{ApiKeyEntry, PluginConfig}
use cpa_plugin_commandcode.Json.{Json}
use cpa_plugin_commandcode.Pool.{Auth, Error, members, order, Net, Doer, Clients, client_for}
use cpa_plugin_commandcode.Pool.Clients.{Reach}
use cpa_plugin_commandcode.Executor.{
  Outcome, Attempt, ExecutorRequest, conclude, proceed, round, failover,
}
use cpa_plugin_commandcode.Executor.Verdict.{
  Verdict, retry, ends, judge, after, conclude-judge, failover-cons,
}
use cpa_plugin_commandcode.Executor.Run.{
  World, HttpRequest, execute_attempt, execute, stream_attempt, execute_stream, http_client,
  http_request,
}

module _ (json : Json) (net : Net) (c : PluginConfig) where
  after-Reach :
      {A : Type 0} (v : Verdict A) (clients : Clients net) (next : Error → Outcome A × Clients net)
      → Reach net c clients
      → ((e : Error) → Reach net c (next e).1)
      → Reach net c (after v clients next).1
  after-Reach (retry e) clients next h k = k e
  after-Reach (ends o) clients next h k = h

  -- What a round leaves behind is what it was given, or what the rounds behind it leave.
  conclude-Reach :
      {A : Type 0} (ended : Bool) (a : Attempt A) (clients : Clients net)
      (next : Error → Outcome A × Clients net)
      → Reach net c clients
      → ((e : Error) → Reach net c (next e).1)
      → Reach net c (conclude json ended a clients next).1
  conclude-Reach ended a clients next h k =
      rw (conclude-judge json ended a clients next)
        (after-Reach (judge json ended a) clients next h k)

  module _ {A : Type 0} (auth : Auth) (host : Bool)
      (attempt : ℕ → ApiKeyEntry → Doer net → Attempt A) (ended : ℕ → Bool) where
    abbrev ms : List ApiKeyEntry
    ms = members (some c) auth

    proceed-Reach :
        (n : ℕ) (m : ApiKeyEntry) (o : Error ⊎ Doer net) (clients : Clients net)
        (next : Clients net → Error → Outcome A × Clients net)
        → Reach net c clients
        → ((e : Error) → Reach net c (next clients e).1)
        → Reach net c (proceed json net ms host attempt ended n m o clients next).1
    unfolding proceed
    proceed-Reach n m (inl e) clients next h k = k e
    proceed-Reach n m (inr d) clients next h k =
        conclude-Reach (ended n) (attempt n m d) clients (next clients) h k

    round-Reach :
        (n idx : ℕ) (clients : Clients net) (next : Clients net → Error → Outcome A × Clients net)
        → Reach net c clients
        → ((clients' : Clients net) (e : Error)
            → Reach net c clients'
            → Reach net c (next clients' e).1)
        → Reach net c (round json net ms host attempt ended n idx clients next).1
    unfolding round
    round-Reach n idx clients next h k = elim (Option-cases (get_elem? ms idx)) [
      | inl missed ↦ rw (missed, round) h
      | inr (m, seen) ↦
          let reached = Reach.call auth idx m host seen h in
          rw (seen, round)
            (proceed-Reach n m _ (client_for net idx m host clients).1 next reached
              (λ e. k (client_for net idx m host clients).1 e reached))
    ]

    failover-Reach :
        (n : ℕ) (out : List ℕ) (clients : Clients net) (last : Option Error)
        → Reach net c clients
        → Reach net c (failover json net ms host attempt ended n out clients last).1
    failover-Reach n [] clients none h = unfold failover in h
    failover-Reach n [] clients (some e) h = unfold failover in h
    failover-Reach n (idx ∷ rest) clients last h =
        let later = λ (clients' : Clients net) (e : Error).
          failover json net ms host attempt ended (suc n) rest clients' (some e) in
        rw (failover-cons json net ms host attempt ended n idx rest clients last) (
          round-Reach n idx clients later h
            (λ clients' e reached. failover-Reach (suc n) rest clients' (some e) reached))

  module _ (world : World net) where
    -- The clients that `Execute` leaves behind are again those of a pool.
    pub execute-Reach :
        (req : ExecutorRequest) (clients : Clients net)
        → Reach net c clients
        → Reach net c (execute json net world (some c) req clients).1
    unfolding execute
    execute-Reach req clients h = elim (Bool-cases (is_empty (members (some c) req.auth))) [
      | inl empty ↦ rw empty h
      | inr full ↦ elim (Option-cases (order world.draws (members (some c) req.auth))) [
        | inl wrapped ↦ rw (full, wrapped) h
        | inr (out, drawn) ↦
            rw (full, drawn)
              (failover-Reach req.auth req.host (execute_attempt json net world (some c) req)
                world.ended 0 out clients none h)
      ]
    ]

    pub execute_stream-Reach :
        (req : ExecutorRequest) (clients : Clients net)
        → Reach net c clients
        → Reach net c (execute_stream json net world (some c) req clients).1
    unfolding execute_stream
    execute_stream-Reach req clients h = elim (Bool-cases (is_empty (members (some c) req.auth))) [
      | inl empty ↦ rw empty h
      | inr full ↦ elim (Option-cases (order world.draws (members (some c) req.auth))) [
        | inl wrapped ↦ rw (full, wrapped) h
        | inr (out, drawn) ↦
            rw (full, drawn)
              (failover-Reach req.auth req.host (stream_attempt json net world (some c) req)
                world.ended 0 out clients none h)
      ]
    ]

    -- And those of `HttpRequest`.
    http_client-Reach :
        (auth : Auth) (ms : List ApiKeyEntry) (host : Bool) (clients : Clients net)
        → members (some c) auth ≡ ms
        → Reach net c clients
        → Reach net c (http_client json net world (some c) ms host clients).1
    unfolding http_client
    http_client-Reach auth [] host clients same h = h
    http_client-Reach auth (m ∷ ms) host clients same h = Reach.call auth 0 m host (rw same refl) h

    http_request-clients :
        (req : HttpRequest) (clients : Clients net)
        → let left = (http_request json net world (some c) req clients).1 in
          (left ≡ clients)
          ⊎ (left
              ≡ (http_client json net world
                  (some c)
                  (members (some c) req.auth)
                  req.host
                  clients).1)
    unfolding http_request
    http_request-clients req clients = ground arith

    pub http_request-Reach :
        (req : HttpRequest) (clients : Clients net)
        → Reach net c clients
        → Reach net c (http_request json net world (some c) req clients).1
    http_request-Reach req clients h = elim (http_request-clients req clients) [
      | inl same ↦ rw same h
      | inr called ↦
          rw called (http_client-Reach req.auth (members (some c) req.auth) req.host clients refl h)
    ]

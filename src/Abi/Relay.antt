-- ===== src/Abi/Relay.antt =====
-- What the host is told of a stream, and of a call that failed.
use cpa_plugin_commandcode.Base.{
  ℕ, suc, ◌+◌, ◌<◌, ◌^◌, length, Bytes, Option, none, some, List, [], ◌∷◌, ◌++◌, map, is_empty,
  if◌then◌else◌, ◌≡◌, refl, ap, inl, inr, ◌⊎◌, arith, Option-cases,
}
use cpa_plugin_commandcode.Config.{PluginConfig}
use cpa_plugin_commandcode.Json.{Json}
use cpa_plugin_commandcode.Pool.{Error, members, Net, Clients}
use cpa_plugin_commandcode.Pool.Clients.{Reach}
use cpa_plugin_commandcode.Pool.Order.{total_weight}
use cpa_plugin_commandcode.Executor.{Outcome, done, failed, panic, ExecutorRequest}
use cpa_plugin_commandcode.Executor.Run.{World, execute}
use cpa_plugin_commandcode.Executor.Failover.{retry_status, failure_status}
use cpa_plugin_commandcode.Executor.Calls.{execute_verdict, execute-status}
use cpa_plugin_commandcode.Stream.{payload, failure}
use cpa_plugin_commandcode.Abi.{
  Event, next, context_ended, HostCall, emit_call, close_call, pump_stream, Envelope, ok, error,
  error_envelope, envelope_of,
}

-- The payloads that are sent, in order.
abbrev pub payloads : List Event → List Bytes
payloads [] = []
payloads (context_ended e ∷ _) = []
payloads (next (failure e) ∷ _) = []
payloads (next (payload p) ∷ events) =
    let rest = payloads events in if is_empty p then rest else p ∷ rest

-- The host is told of the payloads `all`, of all of them or of those up to the first emit that fails
-- (the emits are counted from `n`), and then, once and last, that the stream is closed.
abbrev pub IsPumped : (ℕ → Option Error) → ℕ → List Bytes → List HostCall → Type 0
IsPumped emit_error n all calls =
    (sent rest : List Bytes) × (message : Bytes) × (all ≡ sent ++ rest)
    × (calls ≡ map emit_call sent ++ close_call message ∷ [])
    × ((rest ≡ [])
        ⊎ ((k : ℕ) × (e : Error) × (emit_error k ≡ some e)
            × (message ≡ e.text)
            × (n + length sent ≡ suc k)))

module _ (emit_error : ℕ → Option Error) where
  IsPumped-cons :
      (n : ℕ) (p : Bytes) (all : List Bytes) (calls : List HostCall)
      → IsPumped emit_error (suc n) all calls
      → IsPumped emit_error n (p ∷ all) (emit_call p ∷ calls)
  IsPumped-cons n p all calls (sent, rest, message, part, same, inl whole) =
      (p ∷ sent, rest, message, ap (λ l. p ∷ l) part, ap (λ l. emit_call p ∷ l) same, inl whole)
  IsPumped-cons n p all calls (sent, rest, message, part, same, inr (k, e, lost, told, count)) = (
    p ∷ sent,
    rest,
    message,
    ap (λ l. p ∷ l) part,
    ap (λ l. emit_call p ∷ l) same,
    inr (k, e, lost, told, omega (arith, count)),
  )

  -- Whatever the chunks are and whichever emit fails, `pumpABIStream` emits the payloads that are not
  -- empty, in order and up to the first failure, and then closes the stream exactly once.
  pub pump_stream-IsPumped :
      (n : ℕ) (events : List Event)
      → IsPumped emit_error n (payloads events) (pump_stream emit_error n events)
  unfolding pump_stream
  pump_stream-IsPumped n [] = ([], [], [], refl, refl, inl refl)
  pump_stream-IsPumped n (context_ended e ∷ _) = ([], [], e, refl, refl, inl refl)
  pump_stream-IsPumped n (next (failure e) ∷ _) = ([], [], e.text, refl, refl, inl refl)
  pump_stream-IsPumped n (next (payload []) ∷ events) = pump_stream-IsPumped n events
  pump_stream-IsPumped n (next (payload (x ∷ p)) ∷ events) = elim (Option-cases (emit_error n)) [
    | inl fine ↦
        rw fine (IsPumped-cons n (x ∷ p) (payloads events) _ (pump_stream-IsPumped (suc n) events))
    | inr (e, lost) ↦
        rw lost
          ((x ∷ p) ∷ [], payloads events, e.text, refl, refl, inr (n, e, lost, refl, omega arith))
  ]

-- The HTTP status that an envelope carries, 0 where it carries none.
abbrev pub http_status : {A : Type 0} → Option (Envelope A) → ℕ
http_status none = 0
http_status (some (ok a)) = 0
http_status (some (error code message status)) = status

-- The host is told the status with which a call fails.
pub envelope_of-failure_status :
    {A : Type 0} (o : Outcome A) (s : ℕ)
    → failure_status o ≡ some s
    → http_status (envelope_of o) ≡ s
unfolding envelope_of error_envelope
envelope_of-failure_status (done a) s h = absurd (cc h)
envelope_of-failure_status (failed e) s h = rw h refl
envelope_of-failure_status panic s h = absurd (cc h)

-- If every member of the pool fails with one HTTP status, such as 401, and leaves the call to the
-- next member, the envelope of `Execute` carries this status to the host, as long as the pool
-- has a member, the clients are those that earlier calls have left and the weights add up to less
-- than 2^63.
pub envelope_of-execute :
    (json : Json) (net : Net) (world : World net) (c : PluginConfig) (req : ExecutorRequest)
    (clients : Clients net)
    → Reach net c clients
    → total_weight (members (some c) req.auth) < 2 ^ 63
    → (s : ℕ) → 0 < length (members (some c) req.auth)
    → ((k j : ℕ)
        → j < length (members (some c) req.auth)
        → retry_status (execute_verdict json net world c req k j) ≡ some s)
    → http_status (envelope_of (execute json net world (some c) req clients).0) ≡ s
envelope_of-execute json net world c req clients reached fits s l h =
    envelope_of-failure_status _ s (execute-status json net world c req clients reached fits s l h)

-- ===== src/Abi.antt =====
-- cmd/commandcode/abi.go: the streams between host and plugin and the error envelopes, with the rest
-- of the bridge in the modules below. A call of the host is an argument or
-- an entry of the list of calls that are made.
pub mod Relay
pub mod HostStream
pub mod Calls
pub mod Answers
pub mod Wire
pub mod Dispatch
pub mod Exports
pub mod Sound
pub mod Failures
pub mod Refused
pub mod Overflow
pub mod Delivery
pub mod Path
pub mod Served
pub mod Streamed
pub mod HostClient
pub mod Pipeline
pub mod Memory
mod LibraryTests
mod ServedTests
mod RefusedTests
use cpa_plugin_commandcode.Base.{
  ℕ, zero, suc, Bytes, codes, Bool, true, false, Option, none, some, List, [], ◌∷◌, is_empty,
  if◌then◌else◌,
}
use cpa_plugin_commandcode.Config.{or_else}
use cpa_plugin_commandcode.Pool.{Error, plain_error}
use cpa_plugin_commandcode.Stream.{OutChunk, payload, failure, Input, read, broken}
use cpa_plugin_commandcode.Executor.{Outcome, done, failed, panic}

-- A round of the loop of `readHostHTTPStream`: the context has ended, the call of the host fails, or
-- the host answers with a payload, an error and whether the stream is done.
pub data Poll : Type 0 where
  stopped : Poll
  refused : Error → Poll
  answer : Bytes → Bytes → Bool → Poll

-- A chunk in front of what follows.
abbrev pub before : Bytes → List Input × Bool → List Input × Bool
before p (chunks, closed) = (read p ∷ chunks, closed)

-- `readHostHTTPStream`: the chunks that it sends, and whether it asks the host to close the stream.
-- At the end of the list the host has not answered yet.
unfoldable pub read_host_stream : List Poll → List Input × Bool
read_host_stream [] = ([], false)
read_host_stream (stopped ∷ _) = ([], true)
read_host_stream (refused e ∷ _) = (broken [] e ∷ [], true)
read_host_stream (answer p error finished ∷ polls) =
    let rest = read_host_stream polls in
    let later = if finished then ([], false) else rest in
    if is_empty error
    then (if is_empty p then later else before p later)
    else (broken [] (plain_error error) ∷ [], false)

-- What `pumpABIStream` receives in a round: a chunk, or the end of the context with its error.
pub data Event : Type 0 where
  next : OutChunk → Event
  context_ended : Bytes → Event

-- The calls of the host that `pumpABIStream` makes.
pub data HostCall : Type 0 where
  emit_call : Bytes → HostCall
  close_call : Bytes → HostCall

module _ (emit_error : ℕ → Option Error) where
  -- `pumpABIStream`, its deferred close included, from the number of emits that were made on.
  -- `emit_error n` is the error of the n-th emit, if it fails.
  unfoldable pub pump_stream : ℕ → List Event → List HostCall
  pump_stream n [] = close_call [] ∷ []
  pump_stream n (context_ended e ∷ _) = close_call e ∷ []
  pump_stream n (next (failure e) ∷ _) = close_call e.text ∷ []
  pump_stream n (next (payload p) ∷ events) =
      let skipped = pump_stream n events in
      let sent = pump_stream (suc n) events in
      if is_empty p then skipped else elim (emit_error n) [
        | some e ↦ emit_call p ∷ close_call e.text ∷ []
        | none ↦ emit_call p ∷ sent
      ]

-- pluginabi.Envelope, with what it carries on success left open.
pub data Envelope (A : Type 0) : Type 0 where
  ok : A → Envelope A
  error : Bytes → Bytes → ℕ → Envelope A

-- `abiErrorEnvelopeFromError`: code, message and HTTP status, 0 for an error without one.
unfoldable pub error_envelope : {A : Type 0} → Bytes → Error → Envelope A
error_envelope code e = error code e.text (or_else e.status 0)

-- `abiOKEnvelopeWithError` on the outcome of a call; a panic passes through.
unfoldable pub envelope_of : {A : Type 0} → Outcome A → Option (Envelope A)
unfolding error_envelope
envelope_of (done a) = some (ok a)
envelope_of (failed e) = some (error_envelope (codes "plugin_error") e)
envelope_of panic = none

-- ===== src/Abi/Calls.antt =====
-- `callHost` of cmd/commandcode/abi.go, and the host's HTTP client and streams that stand on it.
use cpa_plugin_commandcode.Base.{
  ℕ, zero, suc, Bytes, codes, Bool, true, false, not, Option, none, some, List, [], ◌++◌, map, ◌⊎◌,
  inl, inr, is_empty, if◌then◌else◌, ℤ, pos, negsuc,
}
use cpa_plugin_commandcode.Config.{or_else}
use cpa_plugin_commandcode.Pool.{Error, plain_error}
use cpa_plugin_commandcode.Reasoning.{itoa}
use cpa_plugin_commandcode.Stream.{Input}
use cpa_plugin_commandcode.Executor.{Header}
use cpa_plugin_commandcode.Executor.Run.{StreamResponse}
use cpa_plugin_commandcode.Abi.{Poll, read_host_stream, next, HostCall, pump_stream}

-- cliproxy_host_api: `call` takes a method and a request, and gives a code and a buffer, which may be
-- nil.
abbrev pub HostApi : Type 0
HostApi = Bytes → Bytes → ℤ × Option Bytes

-- pluginabi.Envelope as an answer of the host is read: the message of its error, if it has one.
pub record HostEnvelope : Type 0 where
  pub good : Bool
  pub result : Bytes
  pub message : Option Bytes

abbrev pub is_zero : ℤ → Bool
is_zero (pos zero) = true
is_zero (pos (suc n)) = false
is_zero (negsuc n) = false

-- encoding/json is a parameter: how an envelope and the result in it are read. `zero_value` is the
-- zero value of the result's type.
module _ {A : Type 0} (unmarshal_envelope : Bytes → Error ⊎ HostEnvelope)
    (unmarshal : Bytes → Error ⊎ A) (zero_value : A) where
  -- The envelope's content.
  unfoldable pub open_envelope : Bytes → HostEnvelope → Error ⊎ A
  open_envelope method e =
      if not e.good
      then inl
          (plain_error (or_else e.message (codes "host callback " ++ (method ++ codes " failed"))))
      else if is_empty e.result
      then inr zero_value
      else unmarshal e.result

  -- What the host's code and buffer come to.
  unfoldable pub read_answer : Bytes → ℤ → Option Bytes → Error ⊎ A
  unfolding open_envelope
  read_answer method code buffer =
      if not (is_zero code)
      then inl (
          plain_error
            (codes "host callback " ++ (method ++ (codes " failed with code " ++ itoa code))))
      else elim (unmarshal_envelope (or_else buffer [])) [
        | inl e ↦ inl e
        | inr envelope ↦ open_envelope method envelope
      ]

  -- `callHost`, and whether it gives a buffer back to the host. The request is marshalled, or the
  -- error of doing so.
  unfoldable pub call_host : Option HostApi → Bytes → Error ⊎ Bytes → (Error ⊎ A) × Bool
  unfolding read_answer
  call_host none method request = (inl (plain_error (codes "host callback is unavailable")), false)
  call_host (some host) method (inl e) = (inl e, false)
  call_host (some host) method (inr request) =
      let (code, buffer) = host method request in
      (read_answer method code buffer, elim buffer [ none ↦ false | some _ ↦ true ])

-- abiHostHTTPStreamResponse
pub record HostStream : Type 0 where
  pub status : ℕ
  pub headers : Header
  pub stream_id : Bytes
  pub chunks : List Input

-- `DoStream` of abiHostHTTPClient, on the answer of its call. `polls` is what the reads of a stream
-- give.
unfoldable pub host_chunks : (Bytes → List Poll) → HostStream → List Input
unfolding read_host_stream
host_chunks polls s =
    if is_empty s.stream_id then s.chunks else (read_host_stream (polls s.stream_id)).0

unfoldable pub do_stream :
    (Bytes → List Poll) → Error ⊎ HostStream → Error ⊎ (ℕ × Header × List Input)
unfolding host_chunks
do_stream polls (inl e) = inl e
do_stream polls (inr s) = inr (s.status, s.headers, host_chunks polls s)

-- `marshalABIStreamResponse`: the answer, and the calls of the host that follow it. A stream without
-- an ID is collected into the answer, up to the end of its channel.
unfoldable pub marshal_stream :
    (ℕ → Option Error) → Bytes → StreamResponse → StreamResponse × List HostCall
unfolding pump_stream
marshal_stream emit_error stream_id r =
    if is_empty stream_id
    then (r, [])
    else (record r { chunks = [] }, pump_stream emit_error 0 (map next r.chunks))

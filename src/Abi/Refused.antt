-- ===== src/Abi/Refused.antt =====
-- A pool whose keys are all refused, as the host meets it.
use cpa_plugin_commandcode.Base.{
  ℕ, Bytes, codes, Bool, true, Option, none, some, List, [], ◌∷◌, length, ◌<◌, ◌^◌, inl, inr, ◌⊎◌,
  if◌then◌else◌, ◌≡◌, refl, ◌∙◌,
}
use cpa_plugin_commandcode.Config.{PluginConfig, Yaml}
use cpa_plugin_commandcode.Json.{Json}
use cpa_plugin_commandcode.Pool.{Error, Net, members}
use cpa_plugin_commandcode.Pool.Order.{total_weight}
use cpa_plugin_commandcode.Executor.{Outcome, done, failed, panic, ExecutorRequest}
use cpa_plugin_commandcode.Executor.Run.{World, execute, execute_stream}
use cpa_plugin_commandcode.Executor.Failover.{retry_status, failure_status}
use cpa_plugin_commandcode.Executor.Calls.{
  execute_verdict, stream_verdict, execute-status, execute_stream-status,
}
use cpa_plugin_commandcode.Plugin.{Plugin}
use cpa_plugin_commandcode.Plugin.Life.{reached-clients}
use cpa_plugin_commandcode.Abi.{error, error_envelope}
use cpa_plugin_commandcode.Abi.Wire.{Wire, execute_method, execute_stream_method, error_bytes}
use cpa_plugin_commandcode.Abi.Exports.{Buffer, write_response, plugin_call}
use cpa_plugin_commandcode.Abi.Sound.{Export, exports_run, exports_run-IsSoundIf}
use cpa_plugin_commandcode.Abi.Failures.{error_buffer, plugin_call-executed, plugin_call-streamed}

failure_status-failed :
    {A : Type 0} (o : Outcome A) (s : ℕ)
    → failure_status o ≡ some s
    → (e : Error) × (o ≡ failed e) × (e.status ≡ some s)
failure_status-failed (done a) s h = absurd (cc h)
failure_status-failed (failed e) s h = (e, refl, h)
failure_status-failed panic s h = absurd (cc h)

module _ (wire : Wire) (json : Json) (net : Net) (yaml : Yaml) where
  -- The bytes behind the pointer that the host gets for a JSON text, if any: it gets nil for no text
  -- and where there is no memory.
  abbrev buffer : Bool → Bytes → Buffer
  buffer allocated [] = none
  buffer allocated (x ∷ raw) = if allocated then some (x ∷ raw) else none

  -- What the host finds of an envelope with the code "plugin_error", this text and this HTTP status.
  abbrev pub told : Bool → Bytes → ℕ → Buffer
  told allocated text status =
      elim (wire.write_envelope (error (codes "plugin_error") text status)) [
        | inl e ↦ none
        | inr raw ↦ buffer allocated raw
      ]

  error_buffer-told :
      (allocated : Bool) (e : Error) (status : ℕ)
      → e.status ≡ some status
      → error_buffer wire json net yaml allocated e ≡ told allocated e.text status
  unfolding error_envelope error_bytes write_response
  error_buffer-told allocated e status h = rw h (written allocated _)
    where
      written :
          (allocated : Bool) (x : Error ⊎ Bytes)
          → write_response allocated (elim x [ inl e ↦ [] | inr raw ↦ raw ])
            ≡ elim x [ inl e ↦ none | inr raw ↦ buffer allocated raw ]
      written allocated (inl e) = refl
      written allocated (inr []) = refl
      written allocated (inr (x ∷ raw)) = refl

  -- However the exported functions were used before: if every member of a pool that is not empty is
  -- refused with one HTTP status, such as 401, and leaves the call to the next one, the executor fails
  -- with this status and some text, for Execute as for ExecuteStream, and the host finds an error
  -- envelope with this text and this status after either call, though the code is 0 for the one and 1
  -- for the other; no call of the host follows. The plugin is registered, the request can be read and
  -- the weights add up to less than 2^63.
  pub exports_run-refused :
      (uses : List (Export wire json net yaml)) (p : Plugin json net yaml) (c : PluginConfig)
      (world : World net) (emit_error : ℕ → Option Error) (allocated : Bool)
      (name stream_name request : Bytes) (req : ExecutorRequest) (stream_id : Bytes) (status : ℕ)
      → let sent = record req { host = true } in
        let s = exports_run wire json net yaml uses in
        let ms = members (some c) req.auth in
        s.plugin ≡ some p
        → p.cfg ≡ some c
        → wire.method_of name ≡ execute_method
        → wire.method_of stream_name ≡ execute_stream_method
        → wire.read_executor request ≡ inr (req, stream_id)
        → total_weight ms < 2 ^ 63
        → 0 < length ms
        → ((k j : ℕ)
            → j < length ms
            → retry_status (execute_verdict json net world c sent k j) ≡ some status)
        → ((k j : ℕ)
            → j < length ms
            → retry_status (stream_verdict json net world c sent k j) ≡ some status)
        → let whole =
            plugin_call wire json net yaml world emit_error allocated (some name) request s in
          let stream =
            plugin_call wire json net yaml world emit_error allocated
              (some stream_name)
              request
              s in
          (e stream_e : Error) × ((execute json net world (some c) sent p.clients).0 ≡ failed e)
          × ((execute_stream json net world (some c) sent p.clients).0 ≡ failed stream_e)
          × (whole.0 ≡ some (0, told allocated e.text status))
          × (whole.1 ≡ [])
          × (stream.0 ≡ some (1, told allocated stream_e.text status))
          × (stream.1 ≡ [])
  exports_run-refused uses p c world emit_error allocated name stream_name request req stream_id
        status registered cfg named stream_named readable small l refused stream_refused =
      let sent = record req { host = true } in
      let s = exports_run wire json net yaml uses in
      let reached =
        reached-clients json net yaml p c cfg
          (rw registered at (exports_run-IsSoundIf wire json net yaml uses)) in
      let (e, out, same) =
        failure_status-failed _ status
          (execute-status json net world c sent p.clients reached small status l refused) in
      let (stream_e, stream_out, stream_same) = failure_status-failed _ status (
        execute_stream-status json net world c sent p.clients reached small status l
          stream_refused) in
      let (whole, quiet) =
        plugin_call-executed wire json net yaml world emit_error allocated name request s p req
          stream_id e registered readable named (rw cfg out) in
      let (stream, stream_quiet) =
        plugin_call-streamed wire json net yaml world emit_error allocated stream_name request s p
          req stream_id stream_e registered readable stream_named (rw cfg stream_out) in
      (
        e,
        stream_e,
        out,
        stream_out,
        whole ∙ rw (error_buffer-told allocated e status same) refl,
        quiet,
        stream ∙ rw (error_buffer-told allocated stream_e status stream_same) refl,
        stream_quiet,
      )

-- ===== src/Abi/Served.antt =====
-- A call of the host that a member of the pool can serve.
use cpa_plugin_commandcode.Base.{
  ℕ, Bytes, Bool, true, Option, some, List, length, ◌<◌, ◌^◌, inr, ◌≡◌, refl, sym, ap, ◌∙◌,
}
use cpa_plugin_commandcode.Config.{PluginConfig, Yaml}
use cpa_plugin_commandcode.Json.{Json}
use cpa_plugin_commandcode.Pool.{Error, Net, members}
use cpa_plugin_commandcode.Pool.Order.{total_weight}
use cpa_plugin_commandcode.Executor.{Outcome, done, failed, panic, ExecutorRequest}
use cpa_plugin_commandcode.Executor.Run.{World, Response, execute}
use cpa_plugin_commandcode.Executor.Failover.{is_done, succeeds, goes_on}
use cpa_plugin_commandcode.Executor.Calls.{execute_verdict}
use cpa_plugin_commandcode.Plugin.{Plugin}
use cpa_plugin_commandcode.Plugin.Life.{run-available}
use cpa_plugin_commandcode.Abi.Wire.{
  Wire, execute_method, executed, ok_envelope, envelope_of_outcome, envelope_with_error,
}
use cpa_plugin_commandcode.Abi.Dispatch.{handle_plugin, handle_method}
use cpa_plugin_commandcode.Abi.Exports.{finish, plugin_call}
use cpa_plugin_commandcode.Abi.Sound.{Export, exports_run, export_requests, exports_run-run}

pub is_done-done {ℓ} : {A : Type ℓ} (o : Outcome A) → is_done o ≡ true → (a : A) × (o ≡ done a)
is_done-done (done a) h = (a, refl)
is_done-done (failed e) h = absurd (cc h)
is_done-done panic h = absurd (cc h)

module _ (wire : Wire) (json : Json) (net : Net) (yaml : Yaml) where
  handle_plugin-done :
      (world : World net) (emit_error : ℕ → Option Error) (name request : Bytes)
      (p : Plugin json net yaml) (req : ExecutorRequest) (stream_id : Bytes) (r : Response)
      → wire.read_executor request ≡ inr (req, stream_id)
      → (execute json net world p.cfg (record req { host = true }) p.clients).0 ≡ done r
      → (handle_plugin wire json net yaml world emit_error execute_method name request p).0
        ≡ ok_envelope wire (executed r)
  unfolding handle_plugin envelope_of_outcome envelope_with_error
  handle_plugin-done world emit_error name request p req stream_id r readable out =
      rw (readable, handle_plugin) (rw (out, envelope_of_outcome) refl)

  -- However the exported functions were used before, a call of Execute is answered with the envelope
  -- of a response, if one member of the pool would answer in every round and no other ends the call
  -- with a failure. The plugin is registered, the request can be read, and the weights of the members
  -- that it sees add up to less than 2^63.
  pub exports_run-served :
      (uses : List (Export wire json net yaml)) (p : Plugin json net yaml) (c : PluginConfig)
      (world : World net) (emit_error : ℕ → Option Error) (allocated : Bool) (name request : Bytes)
      (req : ExecutorRequest) (stream_id : Bytes)
      → let sent = record req { host = true } in
        let s = exports_run wire json net yaml uses in
        s.plugin ≡ some p
        → p.cfg ≡ some c
        → wire.method_of name ≡ execute_method
        → wire.read_executor request ≡ inr (req, stream_id)
        → total_weight (members (some c) req.auth) < 2 ^ 63
        → (i : ℕ) → i < length (members (some c) req.auth)
        → ((k : ℕ) → succeeds (execute_verdict json net world c sent k i) ≡ true)
        → ((k j : ℕ)
            → j < length (members (some c) req.auth)
            → goes_on (execute_verdict json net world c sent k j) ≡ true)
        → (r : Response) × ((plugin_call wire json net yaml world emit_error allocated
              (some name)
              request
              s).0
            ≡ finish wire json net yaml allocated (ok_envelope wire (executed r)))
  unfolding plugin_call handle_method
  exports_run-served uses p c world emit_error allocated name request req stream_id registered cfg
        named readable small i l works others =
      let sent = record req { host = true } in
      let answered =
        run-available json net yaml (export_requests wire json net yaml uses) p c world sent
          (sym (exports_run-run wire json net yaml uses) ∙ registered) cfg small i l works others in
      let (r, out) = is_done-done (execute json net world p.cfg sent p.clients).0 answered in
      (
        r,
        rw (registered, named)
            (ap (finish wire json net yaml allocated)
              (handle_plugin-done world emit_error name request p req stream_id r readable out)),
      )

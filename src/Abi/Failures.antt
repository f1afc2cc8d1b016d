-- ===== src/Abi/Failures.antt =====
-- How the host learns of a call that fails.
use cpa_plugin_commandcode.Base.{
  ℕ, Bytes, codes, Bool, true, Option, none, some, List, [], inr, ◌≡◌, ◌≢◌, refl, sym, ap, ◌∙◌,
}
use cpa_plugin_commandcode.Config.{Yaml}
use cpa_plugin_commandcode.Json.{Json}
use cpa_plugin_commandcode.Pool.{Error, plain_error, Net}
use cpa_plugin_commandcode.Executor.{failed, ExecutorRequest}
use cpa_plugin_commandcode.Executor.Run.{World, execute, execute_stream}
use cpa_plugin_commandcode.Plugin.{Plugin}
use cpa_plugin_commandcode.Abi.{HostCall, error_envelope}
use cpa_plugin_commandcode.Abi.Wire.{
  Method, register, reconfigure, quiesce, shutdown, execute_method, execute_stream_method, Wire,
  Handled, replied, refused, error_bytes, envelope_of_outcome, stream_answer,
}
use cpa_plugin_commandcode.Abi.Dispatch.{handle_plugin, handle_method}
use cpa_plugin_commandcode.Abi.Exports.{AbiState, Buffer, write_response, finish, plugin_call}

module _ (wire : Wire) (json : Json) (net : Net) (yaml : Yaml) where
  -- The buffer in which the host finds an error.
  abbrev pub error_buffer : Bool → Error → Buffer
  error_buffer allocated e =
      write_response allocated (error_bytes wire (error_envelope (codes "plugin_error") e))

  abbrev unregistered : Error
  unregistered = plain_error (codes "commandcode plugin is not registered")

  module _ (world : World net) (emit_error : ℕ → Option Error) (name request : Bytes) where
    handle_plugin-executed :
        (p : Plugin json net yaml) (req : ExecutorRequest) (stream_id : Bytes) (e : Error)
        → wire.read_executor request ≡ inr (req, stream_id)
        → (execute json net world p.cfg (record req { host = true }) p.clients).0 ≡ failed e
        → let (answer, calls, _) =
            handle_plugin wire json net yaml world emit_error execute_method name request p in
          (answer ≡ replied (error_bytes wire (error_envelope (codes "plugin_error") e)))
          × (calls ≡ [])
    unfolding handle_plugin envelope_of_outcome
    handle_plugin-executed p req stream_id e readable out =
        rw (readable, handle_plugin) (rw (out, envelope_of_outcome) (refl, refl))

    handle_plugin-streamed :
        (p : Plugin json net yaml) (req : ExecutorRequest) (stream_id : Bytes) (e : Error)
        → wire.read_executor request ≡ inr (req, stream_id)
        → (execute_stream json net world p.cfg (record req { host = true }) p.clients).0 ≡ failed e
        → let (answer, calls, _) =
            handle_plugin wire json net yaml world emit_error execute_stream_method name request
              p in
          (answer ≡ refused e) × (calls ≡ [])
    unfolding handle_plugin stream_answer
    handle_plugin-streamed p req stream_id e readable out =
        rw (readable, handle_plugin) (rw (out, stream_answer) (refl, refl))

    handle_method-unregistered :
        (m : Method)
        → m ≢ register
        → m ≢ reconfigure
        → m ≢ quiesce
        → m ≢ shutdown
        → handle_method wire json net yaml world emit_error m name request none
          ≡ (refused unregistered, [], none)
    unfolding handle_method
    handle_method-unregistered register a b c d = absurd (a refl)
    handle_method-unregistered reconfigure a b c d = absurd (b refl)
    handle_method-unregistered quiesce a b c d = absurd (c refl)
    handle_method-unregistered shutdown a b c d = absurd (d refl)
    handle_method-unregistered _ a b c d = refl

  module _ (world : World net) (emit_error : ℕ → Option Error) (allocated : Bool)
      (name request : Bytes) (s : AbiState json net yaml) where
    abbrev pub called : Option (ℕ × Buffer) × List HostCall × AbiState json net yaml
    called = plugin_call wire json net yaml world emit_error allocated (some name) request s

    abbrev answered :
        Handled × List HostCall × Option (Plugin json net yaml)
        → Option (ℕ × Buffer) × List HostCall × AbiState json net yaml
    answered (h, calls, plugin) =
        (finish wire json net yaml allocated h, calls, record s { plugin = plugin })

    pub plugin_call-executed :
        (p : Plugin json net yaml) (req : ExecutorRequest) (stream_id : Bytes) (e : Error)
        → s.plugin ≡ some p
        → wire.read_executor request ≡ inr (req, stream_id)
        → wire.method_of name ≡ execute_method
        → (execute json net world p.cfg (record req { host = true }) p.clients).0 ≡ failed e
        → (called.0 ≡ some (0, error_buffer allocated e)) × (called.1 ≡ [])
    unfolding plugin_call handle_method
    plugin_call-executed p req stream_id e registered readable named out =
        let (answer, calls) =
          handle_plugin-executed world emit_error name request p req stream_id e readable out in
        rw (registered, named) (ap (finish wire json net yaml allocated) answer, calls)

    pub plugin_call-streamed :
        (p : Plugin json net yaml) (req : ExecutorRequest) (stream_id : Bytes) (e : Error)
        → s.plugin ≡ some p
        → wire.read_executor request ≡ inr (req, stream_id)
        → wire.method_of name ≡ execute_stream_method
        → (execute_stream json net world p.cfg (record req { host = true }) p.clients).0 ≡ failed e
        → (called.0 ≡ some (1, error_buffer allocated e)) × (called.1 ≡ [])
    unfolding plugin_call handle_method
    plugin_call-streamed p req stream_id e registered readable named out =
        let (answer, calls) =
          handle_plugin-streamed world emit_error name request p req stream_id e readable out in
        rw (registered, named) (ap (finish wire json net yaml allocated) answer, calls)

    -- Before the registration and after the shutdown every method but the four of the life cycle is
    -- refused with an error envelope and code 1, without a call of the host, and nothing changes.
    pub plugin_call-unregistered :
        s.plugin ≡ none
        → wire.method_of name ≢ register
        → wire.method_of name ≢ reconfigure
        → wire.method_of name ≢ quiesce
        → wire.method_of name ≢ shutdown
        → called ≡ (
          some (
            1,
            error_buffer allocated (plain_error (codes "commandcode plugin is not registered")),
          ),
          [],
          s,
        )
    unfolding plugin_call
    plugin_call-unregistered missing a b c d =
        let m = wire.method_of name in
        let same = handle_method-unregistered world emit_error name request m a b c d in
        ap
          (λ (state : Option (Plugin json net yaml)).
            answered (handle_method wire json net yaml world emit_error m name request state))
          missing
        ∙ ap answered same
        ∙ ap (λ (state : Option (Plugin json net yaml)). answered (refused unregistered, [], state))
            (sym missing)

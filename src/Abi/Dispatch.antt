-- ===== src/Abi/Dispatch.antt =====
-- `handleRegister` and `handleABIMethod` of cmd/commandcode/abi.go.
use cpa_plugin_commandcode.Base.{
  ℕ, Bytes, codes, true, Option, none, some, List, [], ◌++◌, inl, inr,
}
use cpa_plugin_commandcode.Config.{Yaml}
use cpa_plugin_commandcode.Json.{Json}
use cpa_plugin_commandcode.Pool.{plain_error, Net}
use cpa_plugin_commandcode.Executor.Run.{World}
use cpa_plugin_commandcode.Plugin.{
  Plugin, build, identifier_of, plugin_static_models, plugin_models_for_auth, plugin_route,
  plugin_translate_request, plugin_translate_response, plugin_execute, plugin_execute_stream,
  plugin_count_tokens, plugin_http_request,
}
use cpa_plugin_commandcode.Pool.{Error}
use cpa_plugin_commandcode.Abi.{HostCall, error}
use cpa_plugin_commandcode.Abi.Wire.{
  Method, register, reconfigure, quiesce, shutdown, identifier, model_static, model_for_auth,
  model_route, request_translate, response_translate, execute_method, execute_stream_method,
  count_tokens_method, http_request_method, registration, empty_answer, registered, identity,
  listed, routed, translated, executed, counted, fetched, Wire, Handled, replied, refused,
  ok_envelope, error_bytes, envelope_with_error, envelope_of_outcome, stream_answer,
}

module _ (wire : Wire) (json : Json) (net : Net) (yaml : Yaml) where
  -- `handleRegister`
  unfoldable pub handle_register :
      Bytes → Option (Plugin json net yaml) → Handled × Option (Plugin json net yaml)
  unfolding build ok_envelope
  handle_register request state = elim (wire.read_lifecycle request) [
    | inl e ↦ (refused e, state)
    | inr raw ↦ (ok_envelope wire (registered registration), some (build json net yaml raw))
  ]

  module _ (world : World net) (emit_error : ℕ → Option Error) where
    -- The cases of the second switch, on a registered plugin. The executor's requests come with the
    -- host's client. In front of the state stand the calls of the host that follow the answer.
    unfoldable pub handle_plugin :
        Method
        → Bytes
        → Bytes
        → Plugin json net yaml
        → Handled × List HostCall × Plugin json net yaml
    unfolding ok_envelope envelope_with_error envelope_of_outcome stream_answer error_bytes
    handle_plugin identifier name request p =
        (ok_envelope wire (identity (identifier_of json net yaml p)), [], p)
    handle_plugin model_static name request p = elim (wire.read_static request) [
      | some e ↦ (refused e, [], p)
      | none ↦ (ok_envelope wire (listed (plugin_static_models json net yaml p)), [], p)
    ]
    handle_plugin model_for_auth name request p = elim (wire.read_for_auth request) [
      | some e ↦ (refused e, [], p)
      | none ↦ (ok_envelope wire (listed (plugin_models_for_auth json net yaml p)), [], p)
    ]
    handle_plugin model_route name request p = elim (wire.read_route request) [
      | inl e ↦ (refused e, [], p)
      | inr req ↦
          let (answer, p') = plugin_route json net yaml p req in
          (ok_envelope wire (routed answer), [], p')
    ]
    handle_plugin request_translate name request p = elim (wire.read_request request) [
      | inl e ↦ (refused e, [], p)
      | inr req ↦ (
        envelope_with_error wire (elim (plugin_translate_request json net yaml p req) [
          | inl e ↦ inl e
          | inr body ↦ inr (translated body)
        ]),
        [],
        p,
      )
    ]
    handle_plugin response_translate name request p = elim (wire.read_response request) [
      | inl e ↦ (refused e, [], p)
      | inr req ↦ (
        envelope_with_error wire (elim (plugin_translate_response json net yaml p req) [
          | inl e ↦ inl e
          | inr body ↦ inr (translated body)
        ]),
        [],
        p,
      )
    ]
    handle_plugin execute_method name request p = elim (wire.read_executor request) [
      | inl e ↦ (refused e, [], p)
      | inr (req, stream_id) ↦
          let (outcome, p') = plugin_execute json net yaml world p (record req { host = true }) in
          (envelope_of_outcome wire executed outcome, [], p')
    ]
    handle_plugin execute_stream_method name request p = elim (wire.read_executor request) [
      | inl e ↦ (refused e, [], p)
      | inr (req, stream_id) ↦
          let (outcome, p') =
            plugin_execute_stream json net yaml world p (record req { host = true }) in
          let (answer, calls) = stream_answer wire emit_error stream_id outcome in
          (answer, calls, p')
    ]
    handle_plugin count_tokens_method name request p = elim (wire.read_executor request) [
      | inl e ↦ (refused e, [], p)
      | inr (req, stream_id) ↦
          (ok_envelope wire (counted (plugin_count_tokens json net yaml p req)), [], p)
    ]
    handle_plugin http_request_method name request p = elim (wire.read_http request) [
      | inl e ↦ (refused e, [], p)
      | inr req ↦
          let (outcome, p') =
            plugin_http_request json net yaml world p (record req { host = true }) in
          (envelope_of_outcome wire fetched outcome, [], p')
    ]
    handle_plugin _ name request p = (
      replied
          (error_bytes wire (error (codes "unknown_method") (codes "unknown method: " ++ name) 0)),
      [],
      p,
    )

    -- `currentPlugin`, and what follows it.
    unfoldable pub handle_current :
        Method
        → Bytes
        → Bytes
        → Option (Plugin json net yaml)
        → Handled × List HostCall × Option (Plugin json net yaml)
    unfolding handle_plugin
    handle_current m name request none =
        (refused (plain_error (codes "commandcode plugin is not registered")), [], none)
    handle_current m name request (some p) =
        let (answer, calls, p') = handle_plugin m name request p in (answer, calls, some p')

    -- `handleABIMethod`, by method.
    unfoldable pub handle_method :
        Method
        → Bytes
        → Bytes
        → Option (Plugin json net yaml)
        → Handled × List HostCall × Option (Plugin json net yaml)
    unfolding handle_register handle_current ok_envelope
    handle_method register name request state =
        let (answer, state') = handle_register request state in (answer, [], state')
    handle_method reconfigure name request state =
        let (answer, state') = handle_register request state in (answer, [], state')
    handle_method quiesce name request state = (ok_envelope wire empty_answer, [], state)
    handle_method shutdown name request state = (ok_envelope wire empty_answer, [], state)
    handle_method m name request state = handle_current m name request state

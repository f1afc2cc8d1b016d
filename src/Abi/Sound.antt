-- ===== src/Abi/Sound.antt =====
-- The library's state against the plugin's life: what a call by bytes does to the plugin is a step.
use cpa_plugin_commandcode.Base.{
  ℕ, Bytes, Bool, true, false, Option, none, some, List, [], ◌∷◌, ◌⊎◌, inl, inr, ◌≡◌, refl, sym, ap,
  ◌∙◌, arith,
}
use cpa_plugin_commandcode.Config.{Yaml}
use cpa_plugin_commandcode.Json.{Json}
use cpa_plugin_commandcode.Pool.{Error, Net}
use cpa_plugin_commandcode.Executor.{ExecutorRequest}
use cpa_plugin_commandcode.Executor.Run.{World, HttpRequest}
use cpa_plugin_commandcode.Plugin.{Plugin, HostRequest, step, run}
use cpa_plugin_commandcode.Plugin.Life.{IsSoundIf, run-IsSoundIf}
use cpa_plugin_commandcode.Abi.Calls.{HostApi}
use cpa_plugin_commandcode.Abi.Wire.{
  Method, register, reconfigure, model_route, execute_method, execute_stream_method,
  http_request_method, Wire,
}
use cpa_plugin_commandcode.Abi.Dispatch.{handle_method}
use cpa_plugin_commandcode.Abi.Exports.{AbiState, plugin_call, plugin_init, plugin_shutdown}

module _ (wire : Wire) (json : Json) (net : Net) (yaml : Yaml) where
  -- A request that can be read, as the plugin's life knows it.
  abbrev pub readable :
      {A : Type 0}
      → (A → HostRequest json net yaml)
      → Error ⊎ A
      → Option (HostRequest json net yaml)
  readable f (inl e) = none
  readable f (inr a) = some (f a)

  -- The request of a method, if it is one that the state depends on.
  abbrev pub requested : World net → Method → Bytes → Option (HostRequest json net yaml)
  requested world register request = readable HostRequest.register (wire.read_lifecycle request)
  requested world reconfigure request = readable HostRequest.register (wire.read_lifecycle request)
  requested world model_route request = readable HostRequest.route (wire.read_route request)
  requested world execute_method request =
      readable
        (λ (r : ExecutorRequest × Bytes).
          HostRequest.execute_call world (record r.0 { host = true }))
        (wire.read_executor request)
  requested world execute_stream_method request =
      readable
        (λ (r : ExecutorRequest × Bytes).
          HostRequest.stream_call world (record r.0 { host = true }))
        (wire.read_executor request)
  requested world http_request_method request =
      readable (λ (r : HttpRequest). HostRequest.http_call world (record r { host = true }))
        (wire.read_http request)
  requested world _ request = none

  abbrev pub step_if :
      Option (HostRequest json net yaml)
      → Option (Plugin json net yaml)
      → Option (Plugin json net yaml)
  step_if none state = state
  step_if (some r) state = step json net yaml r state

  handle_method-step :
      (world : World net) (emit_error : ℕ → Option Error) (m : Method) (name request : Bytes)
      (state : Option (Plugin json net yaml))
      → (handle_method wire json net yaml world emit_error m name request state).2
        ≡ step_if (requested world m request) state
  unfolding handle_method step
  handle_method-step world emit_error register name request none = ground arith
  handle_method-step world emit_error _ name request none = ground arith
  handle_method-step world emit_error register name request (some p) = ground arith
  handle_method-step world emit_error _ name request (some p) = ground arith

  -- A use of the exported functions.
  pub data Export : Type 1 where
    call_export : World net → (ℕ → Option Error) → Bool → Option Bytes → Bytes → Export
    init_export : Option HostApi → Bool → Export
    shutdown_export : Export

  unfoldable pub export_step : Export → AbiState json net yaml → AbiState json net yaml
  unfolding plugin_call plugin_init plugin_shutdown
  export_step (call_export world emit_error allocated name request) s =
      (plugin_call wire json net yaml world emit_error allocated name request s).2
  export_step (init_export host table) s = (plugin_init wire json net yaml host table s).1
  export_step shutdown_export s = plugin_shutdown wire json net yaml s

  -- The library after some uses, the last one first, from the state with which it is loaded.
  unfoldable pub exports_run : List Export → AbiState json net yaml
  unfolding export_step
  exports_run [] = record { host = none; plugin = none }
  exports_run (e ∷ earlier) = export_step e (exports_run earlier)

  -- The request of the plugin's life that a use is, if it is one.
  abbrev pub export_request : Export → Option (HostRequest json net yaml)
  export_request (call_export world emit_error allocated none request) = none
  export_request (call_export world emit_error allocated (some name) request) =
      requested world (wire.method_of name) request
  export_request (init_export host table) = none
  export_request shutdown_export = some HostRequest.shutdown

  abbrev pub in_front {ℓ} : {A : Type ℓ} → Option A → List A → List A
  in_front none l = l
  in_front (some a) l = a ∷ l

  abbrev pub export_requests : List Export → List (HostRequest json net yaml)
  export_requests [] = []
  export_requests (e ∷ earlier) = in_front (export_request e) (export_requests earlier)

  export_step-step :
      (e : Export) (s : AbiState json net yaml)
      → (export_step e s).plugin ≡ step_if (export_request e) s.plugin
  unfolding export_step plugin_call plugin_init step
  export_step-step (call_export world emit_error allocated none request) s = refl
  export_step-step (call_export world emit_error allocated (some name) request) s =
      handle_method-step world emit_error (wire.method_of name) name request s.plugin
  export_step-step (init_export none table) s = refl
  export_step-step (init_export (some host) true) s = refl
  export_step-step (init_export (some host) false) s = refl
  export_step-step shutdown_export s = refl

  run-in_front :
      (r : Option (HostRequest json net yaml)) (l : List (HostRequest json net yaml))
      → run json net yaml (in_front r l) ≡ step_if r (run json net yaml l)
  unfolding run
  run-in_front none l = refl
  run-in_front (some r) l = refl

  -- The library implements the plugin's life: whichever exported functions are used, in whichever
  -- order and with whatever bytes, the plugin that it keeps is the one that results from the requests
  -- among them that can be read, one step each. All else leaves the plugin as it was.
  pub exports_run-run :
      (uses : List Export) → (exports_run uses).plugin ≡ run json net yaml (export_requests uses)
  unfolding exports_run run
  exports_run-run [] = refl
  exports_run-run (e ∷ earlier) =
      export_step-step e (exports_run earlier)
      ∙ ap (step_if (export_request e)) (exports_run-run earlier)
      ∙ sym (run-in_front (export_request e) (export_requests earlier))

  -- So the plugin that the library keeps is nil, or sound.
  pub exports_run-IsSoundIf :
      (uses : List Export) → IsSoundIf json net yaml (exports_run uses).plugin
  exports_run-IsSoundIf uses =
      rw (exports_run-run uses) (run-IsSoundIf json net yaml (export_requests uses))

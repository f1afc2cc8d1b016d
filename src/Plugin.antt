-- ===== src/Plugin.antt =====
-- The plugin as the host drives it: `Build` of plugin.go, the registration in cmd/commandcode/abi.go
-- and the calls that follow, as steps on the state that they share.
pub mod Life
pub mod Shared
pub mod Overlap
mod Tests
use cpa_plugin_commandcode.Base.{Bytes, Option, none, some, List, [], ◌∷◌, ◌⊎◌}
use cpa_plugin_commandcode.Config.{PluginConfig, Yaml, parse_config}
use cpa_plugin_commandcode.Json.{Json}
use cpa_plugin_commandcode.Pool.{Net, Clients, Error}
use cpa_plugin_commandcode.Router.{ModelRouteRequest, ModelRouteResponse, route_model}
use cpa_plugin_commandcode.Models.{provider, ModelResponse, static_models, models_for_auth}
use cpa_plugin_commandcode.Translator.{TransformRequest, translate_request, translate_response}
use cpa_plugin_commandcode.Executor.{Outcome, ExecutorRequest}
use cpa_plugin_commandcode.Executor.Tokens.{TokenCount, count_response}
use cpa_plugin_commandcode.Executor.Run.{
  World, Response, StreamResponse, HttpRequest, HttpResponse, execute, execute_stream, http_request,
}

module _ (json : Json) (net : Net) (yaml : Yaml) where
  -- The state that `CommandCodePlugin` keeps: the configuration that its parts share, and the
  -- clients of its pool.
  pub record Plugin : Type 0 where
    pub cfg : Option PluginConfig
    pub clients : Clients net

  -- `Build`
  unfoldable pub build : Bytes → Plugin
  build raw = record { cfg = some (parse_config yaml raw); clients = [] }

  -- `Identifier`
  abbrev pub identifier_of : Plugin → Bytes
  identifier_of p = provider

  -- `StaticModels` and `ModelsForAuth`
  abbrev pub plugin_static_models : Plugin → ModelResponse
  plugin_static_models p = static_models p.cfg

  abbrev pub plugin_models_for_auth : Plugin → ModelResponse
  plugin_models_for_auth p = models_for_auth p.cfg

  -- `RouteModel`
  abbrev pub plugin_route : Plugin → ModelRouteRequest → ModelRouteResponse × Plugin
  plugin_route p req = let (answer, cfg) = route_model p.cfg req in (answer, record p { cfg = cfg })

  -- `TranslateRequest` and `TranslateResponse`. A translation leaves the configuration as it is: its
  -- tables have been built when it was parsed.
  abbrev pub plugin_translate_request : Plugin → TransformRequest → Error ⊎ Bytes
  plugin_translate_request p req = translate_request json p.cfg req

  abbrev pub plugin_translate_response : Plugin → TransformRequest → Error ⊎ Bytes
  plugin_translate_response p req = translate_response json req

  -- `Execute`
  abbrev pub plugin_execute : World net → Plugin → ExecutorRequest → Outcome Response × Plugin
  plugin_execute world p req =
      let (outcome, clients) = execute json net world p.cfg req p.clients in
      (outcome, record p { clients = clients })

  -- `ExecuteStream`
  abbrev pub plugin_execute_stream :
      World net → Plugin → ExecutorRequest → Outcome StreamResponse × Plugin
  plugin_execute_stream world p req =
      let (outcome, clients) = execute_stream json net world p.cfg req p.clients in
      (outcome, record p { clients = clients })

  -- `CountTokens`
  abbrev pub plugin_count_tokens : Plugin → ExecutorRequest → TokenCount
  plugin_count_tokens p req = count_response req.model req.payload

  -- `HttpRequest`
  abbrev pub plugin_http_request : World net → Plugin → HttpRequest → Outcome HttpResponse × Plugin
  plugin_http_request world p req =
      let (outcome, clients) = http_request json net world p.cfg req p.clients in
      (outcome, record p { clients = clients })

  -- A call of the host, its request decoded: a registration with its YAML, calls that keep or change
  -- the state, and the end of the plugin, `CommandCodePluginShutdown`.
  pub data HostRequest : Type 1 where
    register : Bytes → HostRequest
    route : ModelRouteRequest → HostRequest
    execute_call : World net → ExecutorRequest → HostRequest
    stream_call : World net → ExecutorRequest → HostRequest
    http_call : World net → HttpRequest → HostRequest
    shutdown : HostRequest

  -- The step on `abiState.plugin`, nil before the registration: a call that is not a registration is
  -- refused then.
  unfoldable pub step : HostRequest → Option Plugin → Option Plugin
  unfolding build
  step (register raw) state = some (build raw)
  step shutdown state = none
  step (route req) none = none
  step (route req) (some p) = some (plugin_route p req).1
  step (execute_call world req) none = none
  step (execute_call world req) (some p) = some (plugin_execute world p req).1
  step (stream_call world req) none = none
  step (stream_call world req) (some p) = some (plugin_execute_stream world p req).1
  step (http_call world req) none = none
  step (http_call world req) (some p) = some (plugin_http_request world p req).1

  -- The calls of the host, the last one first, from a plugin that has not been registered.
  unfoldable pub run : List HostRequest → Option Plugin
  unfolding step
  run [] = none
  run (req ∷ earlier) = step req (run earlier)

-- ===== src/Plugin/Life.antt =====
-- What holds of the state, whatever the host has called.
use cpa_plugin_commandcode.Base.{
  ℕ, Bytes, true, Option, none, some, List, [], ◌∷◌, length, ◌<◌, ◌^◌, ◌≡◌, refl, sym, ◌∙◌,
}
use cpa_plugin_commandcode.Config.{PluginConfig, Yaml, parse_config, build_indexes, zero_config}
use cpa_plugin_commandcode.Json.{Json}
use cpa_plugin_commandcode.Pool.{Net, members}
use cpa_plugin_commandcode.Pool.Clients.{Reach}
use cpa_plugin_commandcode.Pool.Order.{total_weight}
use cpa_plugin_commandcode.Router.{ModelRouteRequest, route_model}
use cpa_plugin_commandcode.Router.Laws.{route_model-build_indexes}
use cpa_plugin_commandcode.Executor.{ExecutorRequest}
use cpa_plugin_commandcode.Executor.Run.{World, execute}
use cpa_plugin_commandcode.Executor.Failover.{is_done, succeeds, goes_on}
use cpa_plugin_commandcode.Executor.Calls.{execute_verdict, execute-available}
use cpa_plugin_commandcode.Executor.Kept.{execute-Reach, execute_stream-Reach, http_request-Reach}
use cpa_plugin_commandcode.Plugin.{
  Plugin, build, HostRequest, register, route, execute_call, stream_call, http_call, shutdown, step,
  run,
}

module _ (json : Json) (net : Net) (yaml : Yaml) where
  -- The configuration is one that was parsed, tables included, and the clients are those that calls
  -- under this very configuration have left.
  pub record IsSound (p : Plugin json net yaml) : Type 0 where
    pub raw : Bytes
    pub parsed : p.cfg ≡ some (parse_config yaml raw)
    pub reached : Reach net (parse_config yaml raw) p.clients

  parsed-built : (raw : Bytes) → (c : PluginConfig) × (parse_config yaml raw ≡ build_indexes c)
  unfolding parse_config
  parsed-built [] = (zero_config, refl)
  parsed-built (x ∷ raw) = (yaml.unmarshal (x ∷ raw) zero_config, refl)

  -- `RouteModel` leaves a parsed configuration as it is.
  route-parsed :
      (raw : Bytes) (req : ModelRouteRequest)
      → (route_model (some (parse_config yaml raw)) req).1 ≡ some (parse_config yaml raw)
  route-parsed raw req =
      let (c, same) = parsed-built raw in rw same (route_model-build_indexes c req).2

  -- Nil, or a sound state.
  abbrev pub IsSoundIf : Option (Plugin json net yaml) → Type 0
  IsSoundIf none = Unit
  IsSoundIf (some p) = IsSound p

  step-IsSoundIf :
      (req : HostRequest json net yaml) (state : Option (Plugin json net yaml))
      → IsSoundIf state
      → IsSoundIf (step json net yaml req state)
  unfolding step build
  step-IsSoundIf (register raw) state h = record { raw = raw; parsed = refl; reached = Reach.start }
  step-IsSoundIf shutdown state h = tt
  step-IsSoundIf (route req) none h = tt
  step-IsSoundIf (route req) (some p) h = record {
    raw = h.raw;
    parsed = rw h.parsed (route-parsed h.raw req);
    reached = h.reached;
  }
  step-IsSoundIf (execute_call world req) none h = tt
  step-IsSoundIf (execute_call world req) (some p) h = record {
    raw = h.raw;
    parsed = h.parsed;
    reached =
        rw h.parsed
          (execute-Reach json net (parse_config yaml h.raw) world req p.clients h.reached);
  }
  step-IsSoundIf (stream_call world req) none h = tt
  step-IsSoundIf (stream_call world req) (some p) h = record {
    raw = h.raw;
    parsed = h.parsed;
    reached =
        rw h.parsed
          (execute_stream-Reach json net (parse_config yaml h.raw) world req p.clients h.reached);
  }
  step-IsSoundIf (http_call world req) none h = tt
  step-IsSoundIf (http_call world req) (some p) h = record {
    raw = h.raw;
    parsed = h.parsed;
    reached =
        rw h.parsed
          (http_request-Reach json net (parse_config yaml h.raw) world req p.clients h.reached);
  }

  -- Whatever the host calls and in whichever order, the plugin is nil, or its configuration is one
  -- that a registration parsed, tables included, and its clients are those that calls under this very
  -- configuration have left: a new registration starts without clients.
  pub run-IsSoundIf :
      (calls : List (HostRequest json net yaml)) → IsSoundIf (run json net yaml calls)
  unfolding run
  run-IsSoundIf [] = tt
  run-IsSoundIf (req ∷ earlier) =
      step-IsSoundIf req (run json net yaml earlier) (run-IsSoundIf earlier)

  pub reached-clients :
      (p : Plugin json net yaml) (c : PluginConfig)
      → p.cfg ≡ some c
      → IsSound p
      → Reach net c p.clients
  reached-clients p c cfg h =
      let same : parse_config yaml h.raw ≡ c = cc (sym h.parsed ∙ cfg) in rw same at h.reached

  -- After any calls of the host, a registered plugin answers `Execute` if one member of its pool
  -- would answer in every round and no other one ends the call with a failure, as long as the weights
  -- add up to less than 2^63.
  pub run-available :
      (calls : List (HostRequest json net yaml)) (p : Plugin json net yaml) (c : PluginConfig)
      (world : World net) (req : ExecutorRequest)
      → run json net yaml calls ≡ some p
      → p.cfg ≡ some c
      → total_weight (members (some c) req.auth) < 2 ^ 63
      → (i : ℕ) → i < length (members (some c) req.auth)
      → ((k : ℕ) → succeeds (execute_verdict json net world c req k i) ≡ true)
      → ((k j : ℕ)
          → j < length (members (some c) req.auth)
          → goes_on (execute_verdict json net world c req k j) ≡ true)
      → is_done (execute json net world p.cfg req p.clients).0 ≡ true
  run-available calls p c world req ran cfg fits i l works others =
      let sound = reached-clients p c cfg (rw ran at (run-IsSoundIf calls)) in
      rw cfg (execute-available json net world c req p.clients sound fits i l works others)

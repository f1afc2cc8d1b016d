-- ===== src/Plugin/Tests.antt =====
-- Examples for the theorems about the life of the plugin.
use cpa_plugin_commandcode.Base.{codes, true, some, List, [], ◌∷◌, ◌++◌, get_elem?, ◌≡◌, refl}
use cpa_plugin_commandcode.Base.Trim.{trim_space}
use cpa_plugin_commandcode.Config.{PluginConfig, build_indexes, parse_config}
use cpa_plugin_commandcode.Pool.{members, client_for}
use cpa_plugin_commandcode.Pool.Clients.{Serves}
use cpa_plugin_commandcode.Plugin.{Plugin, build, HostRequest, register, execute_call, run}
use cpa_plugin_commandcode.Plugin.Life.{IsSoundIf, run-IsSoundIf}
use cpa_plugin_commandcode.Plugin.Shared.{
  Flight, Move, register_move, shutdown_move, begin_move, ask_move, move, moves_run,
}
use cpa_plugin_commandcode.Plugin.Overlap.{moves_run-Serves}
use cpa_plugin_commandcode.Toys.{
  toy_json, toy_net, toy_yaml, toy_request, toy_world, toy_config, no_auth, second_key,
}

-- A registration, and a call.
abbrev calls : List (HostRequest toy_json toy_net toy_yaml)
calls = execute_call toy_world toy_request ∷ register (codes "enabled: true") ∷ []

run-IsSoundIf_example : IsSoundIf toy_json toy_net toy_yaml (run toy_json toy_net toy_yaml calls)
run-IsSoundIf_example = run-IsSoundIf toy_json toy_net toy_yaml calls

-- A registration and the beginning of a call; then the call asks for both its clients, with another
-- registration and the shutdown between.
abbrev earlier : List Move
earlier = begin_move no_auth true ∷ register_move (codes "enabled: true") ∷ []

abbrev later : List Move
later = ask_move 0 1 ∷ shutdown_move ∷ register_move [] ∷ ask_move 0 0 ∷ []

abbrev flight : Flight
flight = record { plugin = 0; auth = no_auth; host = true }

abbrev config : PluginConfig
config = build_indexes toy_config

abbrev plugin : Plugin toy_json toy_net toy_yaml
plugin = record { cfg = some config; clients = [] }

earlier-flights : get_elem? (moves_run toy_json toy_net toy_yaml earlier).flights 0 ≡ some flight
unfolding moves_run move
earlier-flights = refl

earlier-plugins : get_elem? (moves_run toy_json toy_net toy_yaml earlier).plugins 0 ≡ some plugin
unfolding moves_run move build parse_config
earlier-plugins = refl

config-members : get_elem? (members (some config) no_auth) 1 ≡ some second_key
unfolding members trim_space build_indexes
config-members = refl

moves_run-Serves_example :
    let s = moves_run toy_json toy_net toy_yaml (later ++ earlier) in
    (get_elem? s.flights 0 ≡ some flight)
    × ((q : Plugin toy_json toy_net toy_yaml) × (get_elem? s.plugins 0 ≡ some q)
        × (q.cfg ≡ some config)
        × Serves toy_net config second_key true (client_for toy_net 1 second_key true q.clients).0)
moves_run-Serves_example =
    moves_run-Serves toy_json toy_net toy_yaml later earlier 0 flight plugin config 1 second_key
      earlier-flights earlier-plugins refl config-members

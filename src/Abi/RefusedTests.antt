-- ===== src/Abi/RefusedTests.antt =====
-- Examples for the theorems about calls that no member can serve.
use cpa_plugin_commandcode.Base.{
  ℕ, zero, suc, ◌*◌, Bytes, codes, true, none, some, List, [], ◌∷◌, length, ◌<◌, ◌^◌, ◌≡◌, refl,
  arith, bytes_eq, to_lower, pos,
}
use cpa_plugin_commandcode.Base.Trim.{trim_space}
use cpa_plugin_commandcode.Config.{
  ApiKeyEntry, PluginConfig, norm_weight, build_indexes, parse_config,
}
use cpa_plugin_commandcode.Pool.{Error, members, proxy_transport, total, weight_at, indices_from}
use cpa_plugin_commandcode.Pool.Order.{total_weight}
use cpa_plugin_commandcode.Pool.Doers.{own_doer}
use cpa_plugin_commandcode.Executor.{failed}
use cpa_plugin_commandcode.Executor.Run.{execute_attempt, stream_attempt, execute, execute_stream}
use cpa_plugin_commandcode.Executor.Failover.{retry_status}
use cpa_plugin_commandcode.Executor.Calls.{execute_verdict, stream_verdict}
use cpa_plugin_commandcode.Plugin.{Plugin, build}
use cpa_plugin_commandcode.Abi.Wire.{execute_method}
use cpa_plugin_commandcode.Abi.Dispatch.{handle_method, handle_register}
use cpa_plugin_commandcode.Abi.Exports.{AbiState, plugin_call}
use cpa_plugin_commandcode.Abi.Sound.{Export, call_export, exports_run, export_step}
use cpa_plugin_commandcode.Abi.Refused.{told, exports_run-refused}
use cpa_plugin_commandcode.Abi.Overflow.{weight_sum, plugin_call-overflow}
use cpa_plugin_commandcode.Toys.{
  toy_json, toy_net, toy_yaml, toy_config, toy_request, toy_world, refusing_world, toy_wire,
  first_key, second_key,
}

-- A registration.
abbrev uses : List (Export (toy_wire execute_method) toy_json toy_net toy_yaml)
uses = call_export toy_world (λ n. none) true (some (codes "r")) (codes "enabled: true") ∷ []

abbrev config : PluginConfig
config = build_indexes toy_config

abbrev plugin : Plugin toy_json toy_net toy_yaml
plugin = record { cfg = some config; clients = [] }

uses-plugin :
    (exports_run (toy_wire execute_method) toy_json toy_net toy_yaml uses).plugin ≡ some plugin
unfolding exports_run export_step plugin_call handle_method handle_register build parse_config
uses-plugin = refl

config-members : members (some config) toy_request.auth ≡ first_key ∷ second_key ∷ []
unfolding members trim_space build_indexes
config-members = refl

config-small : total_weight (members (some config) toy_request.auth) < 2 ^ 63
config-small =
    rw config-members (unfold total_weight total indices_from weight_at norm_weight in omega arith)

length-config-members : length (members (some config) toy_request.auth) ≡ 2
length-config-members = rw config-members refl

all-refused :
    (k j : ℕ)
    → j < length (members (some config) toy_request.auth)
    → retry_status (execute_verdict toy_json toy_net refusing_world config toy_request k j)
      ≡ some 401
unfolding execute_verdict members trim_space own_doer execute_attempt proxy_transport bytes_eq
    to_lower build_indexes
all-refused k zero h = refl
all-refused k (suc zero) h = refl
all-refused k (suc (suc j)) h = absurd (omega (arith, length-config-members))

streams-refused :
    (k j : ℕ)
    → j < length (members (some config) toy_request.auth)
    → retry_status (stream_verdict toy_json toy_net refusing_world config toy_request k j)
      ≡ some 401
unfolding stream_verdict members trim_space own_doer stream_attempt proxy_transport bytes_eq
    to_lower build_indexes
streams-refused k zero h = refl
streams-refused k (suc zero) h = refl
streams-refused k (suc (suc j)) h = absurd (omega (arith, length-config-members))

exports_run-refused_example :
    let w = toy_wire execute_method in
    let s = exports_run w toy_json toy_net toy_yaml uses in
    let called = λ (name : Bytes).
      plugin_call w toy_json toy_net toy_yaml refusing_world (λ n. none) true (some name) [] s in
    let whole = called (codes "ex") in
    let stream = called [] in
    (e stream_e : Error) × ((execute toy_json toy_net refusing_world (some config) toy_request []).0
      ≡ failed e)
    × ((execute_stream toy_json toy_net refusing_world (some config) toy_request []).0
        ≡ failed stream_e)
    × (whole.0 ≡ some (0, told w toy_json toy_net toy_yaml true e.text 401))
    × (whole.1 ≡ [])
    × (stream.0 ≡ some (1, told w toy_json toy_net toy_yaml true stream_e.text 401))
    × (stream.1 ≡ [])
exports_run-refused_example =
    exports_run-refused (toy_wire execute_method) toy_json toy_net toy_yaml uses plugin config
      refusing_world (λ n. none) true (codes "ex") [] [] toy_request (codes "s1") 401 uses-plugin
      refl refl refl refl config-small (omega (arith, length-config-members)) all-refused
      streams-refused

-- Three keys whose weights add up to 3 * 2^62.
abbrev heavy_key : ApiKeyEntry
heavy_key = record first_key { weight = pos (2 ^ 62) }

abbrev heavy_config : PluginConfig
heavy_config = record toy_config { api_keys = heavy_key ∷ heavy_key ∷ heavy_key ∷ [] }

heavy_sum : weight_sum (members (some heavy_config) toy_request.auth) ≡ 3 * 2 ^ 62
unfolding members trim_space
heavy_sum = refl

abbrev heavy_plugin : Plugin toy_json toy_net toy_yaml
heavy_plugin = record { cfg = some heavy_config; clients = [] }

abbrev heavy_state : AbiState toy_json toy_net toy_yaml
heavy_state = record { host = none; plugin = some heavy_plugin }

plugin_call-overflow_example :
    let w = toy_wire execute_method in
    let called = λ (name : Bytes).
      plugin_call w toy_json toy_net toy_yaml toy_world
        (λ n. none)
        true
        (some name)
        []
        heavy_state in
    ((called (codes "ex")).0 ≡ none) × ((called []).0 ≡ none)
plugin_call-overflow_example =
    plugin_call-overflow (toy_wire execute_method) toy_json toy_net toy_yaml toy_world (λ n. none)
      true (codes "ex") [] [] heavy_state heavy_plugin heavy_config toy_request (codes "s1") refl
      refl refl refl refl (omega (arith, heavy_sum)) (omega (arith, heavy_sum))

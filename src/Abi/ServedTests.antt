-- ===== src/Abi/ServedTests.antt =====
-- Examples for the theorem about calls that a member can serve.
use cpa_plugin_commandcode.Base.{
  ℕ, zero, suc, codes, true, none, some, List, [], ◌∷◌, length, ◌<◌, ◌^◌, ◌≡◌, refl, arith,
  bytes_eq, to_lower,
}
use cpa_plugin_commandcode.Base.Trim.{trim_space}
use cpa_plugin_commandcode.Config.{PluginConfig, norm_weight, build_indexes, parse_config}
use cpa_plugin_commandcode.Pool.{members, proxy_transport, total, weight_at, indices_from}
use cpa_plugin_commandcode.Pool.Order.{total_weight}
use cpa_plugin_commandcode.Pool.Doers.{own_doer}
use cpa_plugin_commandcode.Executor.Run.{execute_attempt}
use cpa_plugin_commandcode.Executor.Failover.{succeeds, goes_on}
use cpa_plugin_commandcode.Executor.Calls.{execute_verdict}
use cpa_plugin_commandcode.Plugin.{Plugin, build}
use cpa_plugin_commandcode.Executor.Run.{Response}
use cpa_plugin_commandcode.Abi.Wire.{execute_method, executed, ok_envelope}
use cpa_plugin_commandcode.Abi.Dispatch.{handle_method, handle_register}
use cpa_plugin_commandcode.Abi.Exports.{finish, plugin_call}
use cpa_plugin_commandcode.Abi.Sound.{Export, call_export, exports_run, export_step}
use cpa_plugin_commandcode.Abi.Served.{exports_run-served}
use cpa_plugin_commandcode.Toys.{
  toy_json, toy_net, toy_yaml, toy_config, toy_request, toy_world, toy_wire, first_key, second_key,
}

-- A registration.
abbrev uses : List (Export (toy_wire execute_method) toy_json toy_net toy_yaml)
uses = call_export toy_world (λ n. none) true (some (codes "r")) (codes "enabled: true") ∷ []

abbrev config : PluginConfig
config = build_indexes toy_config

abbrev plugin : Plugin toy_json toy_net toy_yaml
plugin = record { cfg = some config; clients = [] }

uses-plugin :
    (exports_run (toy_wire execute_method) toy_json toy_net toy_yaml uses).plugin ≡ some plugin
unfolding exports_run export_step plugin_call handle_method handle_register build parse_config
uses-plugin = refl

config-members : members (some config) toy_request.auth ≡ first_key ∷ second_key ∷ []
unfolding members trim_space build_indexes
config-members = refl

config-small : total_weight (members (some config) toy_request.auth) < 2 ^ 63
config-small =
    rw config-members (unfold total_weight total indices_from weight_at norm_weight in omega arith)

length-config-members : length (members (some config) toy_request.auth) ≡ 2
length-config-members = rw config-members refl

first-works :
    (k : ℕ) → succeeds (execute_verdict toy_json toy_net toy_world config toy_request k 0) ≡ true
unfolding execute_verdict members trim_space own_doer execute_attempt build_indexes
first-works k = refl

all-go_on :
    (k j : ℕ)
    → j < length (members (some config) toy_request.auth)
    → goes_on (execute_verdict toy_json toy_net toy_world config toy_request k j) ≡ true
unfolding execute_verdict members trim_space own_doer execute_attempt proxy_transport bytes_eq
    to_lower build_indexes
all-go_on k zero h = refl
all-go_on k (suc zero) h = refl
all-go_on k (suc (suc j)) h = absurd (omega (arith, length-config-members))

exports_run-served_example :
    let w = toy_wire execute_method in
    (r : Response) × ((plugin_call w toy_json toy_net toy_yaml toy_world
        (λ n. none)
        true
        (some (codes "ex"))
        []
        (exports_run w toy_json toy_net toy_yaml uses)).0
      ≡ finish w toy_json toy_net toy_yaml true (ok_envelope w (executed r)))
exports_run-served_example =
    exports_run-served (toy_wire execute_method) toy_json toy_net toy_yaml uses plugin config
      toy_world (λ n. none) true (codes "ex") [] toy_request (codes "s1") uses-plugin refl refl refl
      config-small 0 (omega (arith, length-config-members)) first-works all-go_on

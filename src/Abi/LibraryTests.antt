-- ===== src/Abi/LibraryTests.antt =====
-- Examples for the theorems about the host's answers and the exported functions.
use cpa_plugin_commandcode.Base.{
  codes, Bytes, none, some, List, [], ◌∷◌, true, ◌⊎◌, inr, pos, ◌≡◌, ◌↔◌,
}
use cpa_plugin_commandcode.Pool.{Error}
use cpa_plugin_commandcode.Plugin.{run}
use cpa_plugin_commandcode.Abi.Calls.{HostApi, HostEnvelope, call_host}
use cpa_plugin_commandcode.Abi.Answers.{IsAnswer, call_host_iff}
use cpa_plugin_commandcode.Abi.Wire.{register}
use cpa_plugin_commandcode.Abi.Sound.{
  Export, call_export, shutdown_export, exports_run, export_requests, exports_run-run,
}
use cpa_plugin_commandcode.Toys.{toy_json, toy_net, toy_yaml, toy_wire, toy_world}

-- A host that answers with an envelope that all is well.
abbrev open_envelope_of : Bytes → Error ⊎ HostEnvelope
open_envelope_of b = inr (record { good = true; result = b; message = none })

abbrev toy_host : HostApi
toy_host method request = (pos 0, some request)

call_host_iff_example :
    ((call_host open_envelope_of
        (λ (b : Bytes). inr b)
        []
        (some toy_host)
        (codes "m")
        (inr (codes "r"))).0
      ≡ inr (codes "r"))
    ↔ IsAnswer open_envelope_of (λ (b : Bytes). inr b) [] (pos 0) (some (codes "r")) (codes "r")
call_host_iff_example =
    call_host_iff open_envelope_of (λ (b : Bytes). inr b) [] toy_host (codes "m") (codes "r")
      (codes "r")

-- A registration, a call and the shutdown.
abbrev uses : List (Export (toy_wire register) toy_json toy_net toy_yaml)
uses =
    shutdown_export
    ∷ call_export toy_world (λ n. none) true (some []) (codes "{}")
    ∷ call_export toy_world (λ n. none) true (some (codes "r")) (codes "enabled: true")
    ∷ []

exports_run-run_example :
    (exports_run (toy_wire register) toy_json toy_net toy_yaml uses).plugin
    ≡ run toy_json toy_net toy_yaml
        (export_requests (toy_wire register) toy_json toy_net toy_yaml uses)
exports_run-run_example = exports_run-run (toy_wire register) toy_json toy_net toy_yaml uses

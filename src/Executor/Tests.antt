-- ===== src/Executor/Tests.antt =====
-- Examples for the theorems about calls of the executor.
use cpa_plugin_commandcode.Base.{
  ℕ, zero, suc, ◌<◌, ◌^◌, Bytes, codes, true, false, Option, none, some, [], ◌∷◌, length, ◌≡◌, refl,
  arith, bytes_eq, to_lower, is_empty,
}
use cpa_plugin_commandcode.Base.Trim.{trim_space}
use cpa_plugin_commandcode.Config.{PluginConfig, norm_weight, build_indexes}
use cpa_plugin_commandcode.Executor.Http.{
  IsAnswer, without_own, credentials, http_request-credentials,
}
use cpa_plugin_commandcode.Pool.{Doer, members, proxy_transport, indices_from, total, weight_at}
use cpa_plugin_commandcode.Pool.Order.{total_weight}
use cpa_plugin_commandcode.Pool.Clients.{Reach, Reach-IsCoherent}
use cpa_plugin_commandcode.Pool.Doers.{own_doer}
use cpa_plugin_commandcode.Executor.{failover, Header, header_get}
use cpa_plugin_commandcode.Executor.Run.{HttpRequest, http_request, execute, execute_attempt}
use cpa_plugin_commandcode.Executor.Verdict.{first_end, failover-first_end}
use cpa_plugin_commandcode.Executor.Failover.{is_done, retry_status, failure_status}
use cpa_plugin_commandcode.Executor.Calls.{execute_verdict, execute-status}
use cpa_plugin_commandcode.Toys.{
  toy_json, toy_net, toy_config, toy_request, toy_world, refusing_world, first_key, second_key,
  no_auth,
}

toy_members : members (some toy_config) toy_request.auth ≡ first_key ∷ second_key ∷ []
unfolding members trim_space
toy_members = refl

toy_config-small : total_weight (members (some toy_config) toy_request.auth) < 2 ^ 63
toy_config-small =
    rw toy_members (unfold total_weight total indices_from weight_at norm_weight in omega arith)

length-toy_members : length (members (some toy_config) toy_request.auth) ≡ 2
length-toy_members = rw toy_members refl

-- A property of both members holds of every index in range.
both :
    (P : ℕ → Type 0) (j : ℕ)
    → j < length (members (some toy_config) toy_request.auth)
    → P 0
    → P 1
    → P j
both P zero h p q = p
both P (suc zero) h p q = q
both P (suc (suc j)) h p q = absurd (omega (arith, length-toy_members))

all-refuse :
    (k j : ℕ)
    → j < length (members (some toy_config) toy_request.auth)
    → retry_status (execute_verdict toy_json toy_net refusing_world toy_config toy_request k j)
      ≡ some 401
all-refuse k j h =
    both
      (λ j.
        retry_status (execute_verdict toy_json toy_net refusing_world toy_config toy_request k j)
        ≡ some 401)
      j h (unfold execute_verdict members trim_space own_doer execute_attempt in refl)
      (unfold execute_verdict members trim_space own_doer execute_attempt proxy_transport bytes_eq
          to_lower in
        refl)

execute-status_example :
    failure_status (execute toy_json toy_net refusing_world (some toy_config) toy_request []).0
    ≡ some 401
execute-status_example =
    execute-status toy_json toy_net refusing_world toy_config toy_request [] Reach.start
      toy_config-small 401 (omega (arith, length-toy_members)) all-refuse

failover-first_end_example :
    let attempt = execute_attempt toy_json toy_net toy_world (some toy_config) toy_request in
    let ms = members (some toy_config) no_auth in
    (failover toy_json toy_net ms true attempt toy_world.ended 0 (1 ∷ 0 ∷ []) [] none).0
    ≡ first_end toy_json toy_net ms true attempt toy_world.ended 0 (1 ∷ 0 ∷ []) none
failover-first_end_example =
    failover-first_end toy_json toy_net toy_config no_auth true
      (execute_attempt toy_json toy_net toy_world (some toy_config) toy_request) toy_world.ended 0
      (1 ∷ 0 ∷ []) [] none (Reach-IsCoherent toy_net toy_config Reach.start)

abbrev toy_http_request : HttpRequest
toy_http_request = record {
  url = codes "http://u";
  headers = [];
  body = [];
  auth = no_auth;
  host = true;
}

http-done :
    is_done (http_request toy_json toy_net toy_world (some toy_config) toy_http_request []).0 ≡ true
unfolding http_request members trim_space
http-done = refl

http_request-credentials_example :
    (d : Doer toy_net) × (sent : Header) × IsAnswer
      (http_request toy_json toy_net toy_world (some toy_config) toy_http_request []).0
      (toy_world.call 0 d (trim_space (codes "http://u")) sent [])
    × (header_get (codes "Authorization") sent
        ≡ credentials (members (some toy_config) no_auth) (header_get (codes "Authorization") []))
    × (is_empty (header_get (codes "Authorization") sent) ≡ false)
    × ((k : Bytes) → without_own sent k ≡ without_own [] k)
    × (is_empty (trim_space (codes "http://u")) ≡ false)
http_request-credentials_example =
    http_request-credentials toy_json toy_net toy_world (some toy_config) toy_http_request []
      http-done

abbrev built : Option PluginConfig
built = some (build_indexes toy_config)

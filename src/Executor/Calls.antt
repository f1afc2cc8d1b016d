-- ===== src/Executor/Calls.antt =====
-- `Execute` and `ExecuteStream` as a whole: which answers a pool gives.
use cpa_plugin_commandcode.Base.{
  ℕ, ◌<◌, ◌^◌, true, false, none, some, List, [], ◌∷◌, length, is_empty, ◌≡◌, refl, arith,
}
use cpa_plugin_commandcode.Config.{ApiKeyEntry, PluginConfig}
use cpa_plugin_commandcode.Json.{Json}
use cpa_plugin_commandcode.Pool.{members, order, Net, Doer, Clients}
use cpa_plugin_commandcode.Pool.Clients.{Reach}
use cpa_plugin_commandcode.Pool.Order.{total_weight, order-Perm}
use cpa_plugin_commandcode.Executor.{Attempt, failover, ExecutorRequest}
use cpa_plugin_commandcode.Executor.Run.{
  Response, StreamResponse, World, execute_attempt, execute, stream_attempt, execute_stream,
}
use cpa_plugin_commandcode.Executor.Verdict.{Verdict, verdict}
use cpa_plugin_commandcode.Executor.Failover.{
  is_done, succeeds, goes_on, retry_status, failure_status,
}
use cpa_plugin_commandcode.Executor.Statuses.{run-done, run-status}

filled-pool : {A : Type 0} (xs : List A) (i : ℕ) → i < length xs → is_empty xs ≡ false
filled-pool [] i h = absurd (omega arith)
filled-pool (x ∷ xs) i h = refl

module _ (json : Json) (net : Net) (world : World net) (c : PluginConfig)
    (req : ExecutorRequest) where
  abbrev ms : List ApiKeyEntry
  ms = members (some c) req.auth

  abbrev attempt : ℕ → ApiKeyEntry → Doer net → Attempt Response
  attempt = execute_attempt json net world (some c) req

  abbrev stream : ℕ → ApiKeyEntry → Doer net → Attempt StreamResponse
  stream = stream_attempt json net world (some c) req

  -- What becomes of the member at an index in a round of `Execute`.
  unfoldable pub execute_verdict : ℕ → ℕ → Verdict Response
  unfolding verdict
  execute_verdict = verdict json net ms req.host attempt world.ended

  -- The same for `ExecuteStream`.
  unfoldable pub stream_verdict : ℕ → ℕ → Verdict StreamResponse
  unfolding verdict
  stream_verdict = verdict json net ms req.host stream world.ended

  execute-run :
      (clients : Clients net) (out : List ℕ)
      → is_empty ms ≡ false
      → order world.draws ms ≡ some out
      → (execute json net world (some c) req clients).0
        ≡ (failover json net ms req.host attempt world.ended 0 out clients none).0
  unfolding execute
  execute-run clients out filled drawn = rw (filled, drawn)

  execute_stream-run :
      (clients : Clients net) (out : List ℕ)
      → is_empty ms ≡ false
      → order world.draws ms ≡ some out
      → (execute_stream json net world (some c) req clients).0
        ≡ (failover json net ms req.host stream world.ended 0 out clients none).0
  unfolding execute_stream
  execute_stream-run clients out filled drawn = rw (filled, drawn)

  -- Whatever order is drawn, `Execute` answers if one member of the pool would answer in every round
  -- and no other one ends the call with a failure, as long as the clients are those that earlier
  -- calls have left and the weights add up to less than 2^63.
  pub execute-available :
      (clients : Clients net)
      → Reach net c clients
      → total_weight (members (some c) req.auth) < 2 ^ 63
      → (i : ℕ) → i < length (members (some c) req.auth)
      → ((k : ℕ) → succeeds (execute_verdict k i) ≡ true)
      → ((k j : ℕ) → j < length (members (some c) req.auth) → goes_on (execute_verdict k j) ≡ true)
      → is_done (execute json net world (some c) req clients).0 ≡ true
  unfolding execute_verdict
  execute-available clients reached fits i l works others =
      let (out, drawn, p) = order-Perm world.draws ms fits in
      rw (execute-run clients out (filled-pool ms i l) drawn) (
        run-done json net c req.auth req.host attempt world.ended world.draws clients reached fits
          out p i l works others)

  -- The same for `ExecuteStream`, whose answer is a stream.
  pub execute_stream-available :
      (clients : Clients net)
      → Reach net c clients
      → total_weight (members (some c) req.auth) < 2 ^ 63
      → (i : ℕ) → i < length (members (some c) req.auth)
      → ((k : ℕ) → succeeds (stream_verdict k i) ≡ true)
      → ((k j : ℕ) → j < length (members (some c) req.auth) → goes_on (stream_verdict k j) ≡ true)
      → is_done (execute_stream json net world (some c) req clients).0 ≡ true
  unfolding stream_verdict
  execute_stream-available clients reached fits i l works others =
      let (out, drawn, p) = order-Perm world.draws ms fits in
      rw (execute_stream-run clients out (filled-pool ms i l) drawn) (
        run-done json net c req.auth req.host stream world.ended world.draws clients reached fits
          out p i l works others)

  -- If every member fails with one and the same HTTP status and leaves the call to the next member,
  -- `Execute` fails with this status, as long as the pool has a member, the clients are
  -- those that earlier calls have left and the weights add up to less than 2^63.
  pub execute-status :
      (clients : Clients net)
      → Reach net c clients
      → total_weight (members (some c) req.auth) < 2 ^ 63
      → (s : ℕ) → 0 < length (members (some c) req.auth)
      → ((k j : ℕ)
          → j < length (members (some c) req.auth)
          → retry_status (execute_verdict k j) ≡ some s)
      → failure_status (execute json net world (some c) req clients).0 ≡ some s
  unfolding execute_verdict
  execute-status clients reached fits s l h =
      let (out, drawn, p) = order-Perm world.draws ms fits in
      rw (execute-run clients out (filled-pool ms 0 l) drawn) (
        run-status json net c req.auth req.host attempt world.ended world.draws clients reached fits
          out p s l h)

  -- The same for `ExecuteStream`.
  pub execute_stream-status :
      (clients : Clients net)
      → Reach net c clients
      → total_weight (members (some c) req.auth) < 2 ^ 63
      → (s : ℕ) → 0 < length (members (some c) req.auth)
      → ((k j : ℕ)
          → j < length (members (some c) req.auth)
          → retry_status (stream_verdict k j) ≡ some s)
      → failure_status (execute_stream json net world (some c) req clients).0 ≡ some s
  unfolding stream_verdict
  execute_stream-status clients reached fits s l h =
      let (out, drawn, p) = order-Perm world.draws ms fits in
      rw (execute_stream-run clients out (filled-pool ms 0 l) drawn) (
        run-status json net c req.auth req.host stream world.ended world.draws clients reached fits
          out p s l h)

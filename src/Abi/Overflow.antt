-- ===== src/Abi/Overflow.antt =====
-- Weights whose sum does not fit into an int64, as the host meets them.
use cpa_plugin_commandcode.Base.{
  ℕ, zero, suc, ◌+◌, ◌≤◌, ◌<◌, ◌^◌, Bytes, Bool, Option, none, some, List, [], ◌∷◌, length, inr,
  pos, negsuc, is_empty, true, false, ◌≡◌, refl, ap, ◌∙◌, arith,
}
use cpa_plugin_commandcode.Config.{ApiKeyEntry, PluginConfig, Yaml, norm_weight}
use cpa_plugin_commandcode.Json.{Json}
use cpa_plugin_commandcode.Pool.{
  Error, Net, Clients, members, weight_at, total, indices_from, order,
}
use cpa_plugin_commandcode.Pool.Order.{total_weight, order-overflow}
use cpa_plugin_commandcode.Executor.{panic, ExecutorRequest}
use cpa_plugin_commandcode.Executor.Run.{World, execute, execute_stream}
use cpa_plugin_commandcode.Plugin.{Plugin}
use cpa_plugin_commandcode.Abi.Wire.{
  Wire, execute_method, execute_stream_method, envelope_of_outcome, stream_answer,
}
use cpa_plugin_commandcode.Abi.Dispatch.{handle_plugin, handle_method}
use cpa_plugin_commandcode.Abi.Exports.{AbiState, finish, plugin_call}

-- The sum of the weights of some entries, each of which counts for at least 1.
abbrev pub weight_sum : List ApiKeyEntry → ℕ
weight_sum [] = 0
weight_sum (m ∷ ms) =
    let rest = weight_sum ms in
    elim m.weight [ pos zero ↦ 1 + rest | pos (suc n) ↦ suc n + rest | negsuc n ↦ 1 + rest ]

-- The sum over the indices from 1 on is that over the tail.
total-shift :
    (w : ℕ → ℕ) (i n : ℕ)
    → total w (indices_from (suc i) n) ≡ total (λ k. w (suc k)) (indices_from i n)
unfolding total indices_from
total-shift w i zero = refl
total-shift w i (suc n) = ap (λ x. w (suc i) + x) (total-shift w (suc i) n)

total_weight-sum : (ms : List ApiKeyEntry) → total_weight ms ≡ weight_sum ms
unfolding total_weight total indices_from weight_at norm_weight
total_weight-sum [] = refl
total_weight-sum (m ∷ ms) =
    let later = total-shift (weight_at (m ∷ ms)) 0 (length ms) ∙ total_weight-sum ms in
    rw later (ground arith)

module _ (json : Json) (net : Net) (world : World net) (c : PluginConfig)
    (req : ExecutorRequest) where
  order-weight_sum :
      (ms : List ApiKeyEntry)
      → 2 ^ 63 ≤ weight_sum ms
      → weight_sum ms < 2 ^ 64
      → (is_empty ms ≡ false) × (order world.draws ms ≡ none)
  order-weight_sum [] h k = absurd (omega (arith, h))
  order-weight_sum (m ∷ ms) h k =
      let same = total_weight-sum (m ∷ ms) in
      (refl, order-overflow world.draws m ms (rw same h) (rw same k))

  executes-panic :
      (clients : Clients net)
      → 2 ^ 63 ≤ weight_sum (members (some c) req.auth)
      → weight_sum (members (some c) req.auth) < 2 ^ 64
      → ((execute json net world (some c) req clients).0 ≡ panic)
        × ((execute_stream json net world (some c) req clients).0 ≡ panic)
  unfolding execute execute_stream
  executes-panic clients h k =
      let (filled, none_drawn) = order-weight_sum (members (some c) req.auth) h k in
      (rw (filled, none_drawn) refl, rw (filled, none_drawn) refl)

module _ (wire : Wire) (json : Json) (net : Net) (yaml : Yaml) where
  -- Where the weights of the entries that are the members of the pool, each counted for at least 1, add
  -- up to 2^63 or more, but less than 2^64, a call of Execute and one of ExecuteStream end the process,
  -- whatever the generator draws and the network answers. The plugin is registered and the request can
  -- be read.
  pub plugin_call-overflow :
      (world : World net) (emit_error : ℕ → Option Error) (allocated : Bool)
      (name stream_name request : Bytes) (s : AbiState json net yaml) (p : Plugin json net yaml)
      (c : PluginConfig) (req : ExecutorRequest) (stream_id : Bytes)
      → s.plugin ≡ some p
      → p.cfg ≡ some c
      → wire.method_of name ≡ execute_method
      → wire.method_of stream_name ≡ execute_stream_method
      → wire.read_executor request ≡ inr (req, stream_id)
      → 2 ^ 63 ≤ weight_sum (members (some c) req.auth)
      → weight_sum (members (some c) req.auth) < 2 ^ 64
      → ((plugin_call wire json net yaml world emit_error allocated (some name) request s).0 ≡ none)
        × ((plugin_call wire json net yaml world emit_error allocated
              (some stream_name)
              request
              s).0
            ≡ none)
  unfolding plugin_call handle_method handle_plugin envelope_of_outcome stream_answer finish
  plugin_call-overflow world emit_error allocated name stream_name request s p c req stream_id
        registered cfg named stream_named readable h k =
      let sent = record req { host = true } in
      let (whole, stream) = executes-panic json net world c sent p.clients h k in
      (
        rw (registered, named) (rw (readable, handle_plugin) (rw (cfg, whole) refl)),
        rw (registered, stream_named) (rw (readable, handle_plugin) (rw (cfg, stream) refl)),
      )

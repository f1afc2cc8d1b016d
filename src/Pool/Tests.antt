-- ===== src/Pool/Tests.antt =====
-- Examples for the theorems about the pool.
use mathlib.Core.List.{Perm, Memᴰ}
use cpa_plugin_commandcode.Base.{
  ℕ, ◌<◌, ◌^◌, some, List, [], ◌∷◌, length, ◌≡◌, ◌↔◌, refl, arith, codes, true, false, is_empty,
}
use cpa_plugin_commandcode.Base.Trim.{trim_space}
use cpa_plugin_commandcode.Config.{ApiKeyEntry, PluginConfig, norm_weight}
use cpa_plugin_commandcode.Pool.{members, order, total, weight_at, pick, indices_from}
use cpa_plugin_commandcode.Pool.Order.{total_weight, order-Perm}
use cpa_plugin_commandcode.Pool.Pick.{IsHit, pick_iff}
use cpa_plugin_commandcode.Pool.Members.{members-defined}
use cpa_plugin_commandcode.Toys.{toy_config, no_auth, first_key, second_key, disabled_key}

abbrev two_keys : List ApiKeyEntry
two_keys = first_key ∷ second_key ∷ []

members-two_keys : members (some toy_config) no_auth ≡ two_keys
unfolding members trim_space
members-two_keys = refl

order-two_keys : order (λ n. 3) two_keys ≡ some (1 ∷ 0 ∷ [])
unfolding order norm_weight
order-two_keys = refl

two_keys-small : total_weight two_keys < 2 ^ 63
unfolding total_weight total indices_from weight_at norm_weight
two_keys-small = omega arith

order-Perm_example :
    (out : List ℕ) × (order (λ n. 3) two_keys ≡ some out)
    × Perm out (indices_from 0 (length two_keys))
order-Perm_example = order-Perm (λ n. 3) two_keys two_keys-small

pick_iff_example :
    (pick (weight_at two_keys) (0 ∷ 1 ∷ []) 3 0 ≡ 1) ↔ IsHit (weight_at two_keys) (0 ∷ 1 ∷ []) 1 3
pick_iff_example = pick_iff (weight_at two_keys) (0 ∷ 1 ∷ []) 3 1 three-small (omega arith)
  where
    three-small : 3 < total (weight_at two_keys) (0 ∷ 1 ∷ [])
    three-small = unfold total weight_at norm_weight in omega arith

-- A configuration whose keys are all switched off, with a legacy key beside them.
abbrev closed_config : PluginConfig
closed_config = record toy_config { api_keys = disabled_key ∷ []; api_key = codes "old" }

members-defined_example :
    ((m : ApiKeyEntry)
      → Memᴰ m (members (some closed_config) no_auth) ↔ (
          Memᴰ m (disabled_key ∷ [])
          × (is_empty (trim_space m.key) ≡ false)
          × (m.disabled ≡ false)))
    × ((members (some closed_config) no_auth ≡ []) ↔ (
        (m : ApiKeyEntry)
        → Memᴰ m (disabled_key ∷ [])
        → is_empty (trim_space m.key) ≡ false
        → m.disabled ≡ true))
members-defined_example =
    members-defined closed_config disabled_key (Memᴰ.head refl) (unfold trim_space in refl) no_auth

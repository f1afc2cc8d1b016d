-- ===== src/Router/Order.antt =====
-- Requests do not depend on the order of the configured entries.
use cpa_plugin_commandcode.Base.{
  Bytes, ◌||◌, ◌&&◌, not, Option, some, List, [], ◌≡◌, sym, ap, ap₂, ◌∙◌, is_empty,
}
use mathlib.Core.List.{Perm}
use mathlib.Mathlib.Data.Multiset.Defs.{Multiset, of_list, coe-eq-coe}
use cpa_plugin_commandcode.Config.{
  ModelEntry, PluginConfig, normalize_model, build_indexes, or_else, effective_models,
  upstream_name,
}
use cpa_plugin_commandcode.Config.Index.{claims, upstream_name-build_indexes}
use cpa_plugin_commandcode.Config.Order.{Agree, any-Perm, last_rewrite-Perm}
use cpa_plugin_commandcode.Router.{ModelRouteRequest, route_model, model_from_body}
use cpa_plugin_commandcode.Router.Laws.{claimed_by, route_model-build_indexes}

-- The effective entries of a configuration, without their order.
abbrev pub entries_of : PluginConfig → Multiset ModelEntry
entries_of c = of_list (effective_models (some c))

claimed_by-Perm :
    {es fs : List ModelEntry} (model : Bytes)
    → Perm es fs
    → claimed_by es model ≡ claimed_by fs model
claimed_by-Perm model same =
    ap (λ b. not (is_empty model) && b) (any-Perm (λ e. claims e (normalize_model model)) same)

-- Two configurations whose effective entries are the same up to their order rewrite every model to
-- the same vendor name and take over the same requests, if no two entries rewrite one name to
-- different ones.
pub route_model-of_list :
    (c d : PluginConfig) (model : Bytes) (req : ModelRouteRequest)
    → entries_of c ≡ entries_of d
    → Agree (effective_models (some c))
    → (upstream_name (some (build_indexes c)) model ≡ upstream_name (some (build_indexes d)) model)
      × ((route_model (some (build_indexes c)) req).0.handled
          ≡ (route_model (some (build_indexes d)) req).0.handled)
route_model-of_list c d model req same agree =
    let p = coe-eq-coe.0 same in
    (
      upstream_name-build_indexes c model
          ∙ ap (λ (o : Option Bytes). or_else o [])
              (last_rewrite-Perm p agree (normalize_model model))
          ∙ sym (upstream_name-build_indexes d model),
      (route_model-build_indexes c req).0
          ∙ ap₂ (λ x y. x || y) (claimed_by-Perm req.requested_model p)
              (claimed_by-Perm (model_from_body req.body) p)
          ∙ sym (route_model-build_indexes d req).0,
    )

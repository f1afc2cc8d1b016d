-- ===== src/Router/Laws.antt =====
-- When the router takes a request over.
use cpa_plugin_commandcode.Base.{
  Bytes, Bool, ◌||◌, ◌&&◌, not, Option, some, List, ◌≡◌, refl, arith, any, is_empty, if◌then◌else◌,
}
use cpa_plugin_commandcode.Config.{
  ModelEntry, PluginConfig, normalize_model, ensure_indexes, model_set, effective_models,
  build_indexes,
}
use cpa_plugin_commandcode.Config.Index.{claims, model_set-build_indexes}
use cpa_plugin_commandcode.Router.{
  ModelRouteRequest, self, unset, holds, route_model, model_from_body,
}

-- A name that is not empty and whose normal form some entry claims.
abbrev pub claimed_by : List ModelEntry → Bytes → Bool
claimed_by es model = not (is_empty model) && any (λ e. claims e (normalize_model model)) es

holds-claimed_by :
    (c : PluginConfig) (model : Bytes)
    → holds (model_set (some (build_indexes c))) model
      ≡ claimed_by (effective_models (some c)) model
unfolding holds
holds-claimed_by c model = ground (arith, model_set-build_indexes c (normalize_model model))

ensure_indexes-build_indexes :
    (c : PluginConfig) → ensure_indexes (some (build_indexes c)) ≡ some (build_indexes c)
unfolding ensure_indexes build_indexes
ensure_indexes-build_indexes c = refl

-- What `RouteModel` answers, from what `owned` says of the built configuration.
route_model-owned :
    (c : Option PluginConfig) (req : ModelRouteRequest)
    → ensure_indexes c ≡ c
    → let set = model_set c in
      let (answer, left) = route_model c req in
      (answer.handled ≡ (holds set req.requested_model || holds set (model_from_body req.body)))
      × (answer.target_kind ≡ (if answer.handled then self else unset))
      × (left ≡ c)
unfolding route_model
route_model-owned c req h = rw h (ground arith)

-- With a built configuration a request is taken over exactly if its model, or the model that the
-- scan finds in its body, is claimed by an effective entry; the answer then names this plugin's
-- own executor, and otherwise no target. The configuration is left as it was.
pub route_model-build_indexes :
    (c : PluginConfig) (req : ModelRouteRequest)
    → let es = effective_models (some c) in
      let (answer, left) = route_model (some (build_indexes c)) req in
      (answer.handled
        ≡ (claimed_by es req.requested_model || claimed_by es (model_from_body req.body)))
      × (answer.target_kind ≡ (if answer.handled then self else unset))
      × (left ≡ some (build_indexes c))
route_model-build_indexes c req =
    rw (← holds-claimed_by c req.requested_model, ← holds-claimed_by c (model_from_body req.body))
      (route_model-owned (some (build_indexes c)) req (ensure_indexes-build_indexes c))

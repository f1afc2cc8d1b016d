-- ===== src/Config/Claims.antt =====
-- How the two tables of a built configuration relate, and `ensureIndexes`.
use cpa_plugin_commandcode.Base.{
  Bytes, Option, none, some, List, [], ◌∷◌, ◌≡◌, ◌≢◌, refl, arith, inl, inr, ◌⊎◌,
}
use cpa_plugin_commandcode.Base.Trim.{trim_space}
use cpa_plugin_commandcode.Base.Dict.{lookup}
use cpa_plugin_commandcode.Config.{
  ModelEntry, PluginConfig, normalize_model, effective_models, build_indexes, ensure_indexes,
  or_else, model_set, upstream_name, Yaml, parse_config,
}
use cpa_plugin_commandcode.Config.Index.{
  newer, rewrite_of, last_rewrite, last_rewrite-claims, model_set-build_indexes,
  upstream_name-build_indexes,
}

-- `n` is the trimmed, and otherwise literal, vendor name of one of the entries.
abbrev pub IsVendorName : Bytes → List ModelEntry → Type 0
IsVendorName n [] = ⊥
IsVendorName n (e ∷ es) = (n ≡ trim_space e.name) ⊎ IsVendorName n es

last_rewrite-IsVendorName :
    (es : List ModelEntry) (k : Bytes) (d : Option Bytes) (n : Bytes)
    → last_rewrite es k d ≡ some n
    → IsVendorName n es ⊎ (d ≡ some n)
last_rewrite-IsVendorName [] k d n h = inr h
last_rewrite-IsVendorName (e ∷ es) k d n h =
    elim (last_rewrite-IsVendorName es k (newer (rewrite_of e k) d) n h) [
      | inl later ↦ inl (inr later)
      | inr here ↦ ground arith
    ]

or_else-ne-nil : (o : Option Bytes) → or_else o [] ≢ [] → o ≡ some (or_else o [])
or_else-ne-nil none h = absurd (h refl)
or_else-ne-nil (some n) h = refl

-- What a built configuration rewrites it also claims, and the name that it sends is literally,
-- but for white space at its ends, one of the configured vendor names.
pub upstream_name-claimed :
    (c : PluginConfig) (model : Bytes)
    → upstream_name (some (build_indexes c)) model ≢ []
    → (lookup (normalize_model model) (model_set (some (build_indexes c))) ≡ some tt)
      × IsVendorName (upstream_name (some (build_indexes c)) model) (effective_models (some c))
upstream_name-claimed c model h =
    let es = effective_models (some c) in
    let k = normalize_model model in
    let spec = upstream_name-build_indexes c model in
    let found = or_else-ne-nil (last_rewrite es k none) (rw spec at h) in
    (
      rw (model_set-build_indexes c k) (ground (arith, last_rewrite-claims es k none found)),
      rw spec (ground (arith, last_rewrite-IsVendorName es k none _ found)),
    )

-- `ensureIndexes` changes nothing on a parsed configuration.
pub ensure_indexes-parse_config :
    (y : Yaml) (raw : Bytes)
    → ensure_indexes (some (parse_config y raw)) ≡ some (parse_config y raw)
unfolding ensure_indexes parse_config build_indexes
ensure_indexes-parse_config y [] = refl
ensure_indexes-parse_config y (x ∷ raw) = refl

-- `ensureIndexes` changes nothing when it runs again.
pub ensure_indexes_idem :
    (c : Option PluginConfig) → ensure_indexes (ensure_indexes c) ≡ ensure_indexes c
unfolding ensure_indexes build_indexes
ensure_indexes_idem none = refl
ensure_indexes_idem (some c) = ground arith

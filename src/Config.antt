-- ===== src/Config.antt =====
-- config.go and `normalizeModel` of plugin.go: the configuration, its model entries and the lookup
-- tables that are built from them. A nil *pluginConfig is `none`. Unmarshalling YAML is a parameter.
pub mod Names
pub mod Index
pub mod Claims
pub mod Order
mod Tests
use cpa_plugin_commandcode.Base.{
  ℕ, Bytes, codes, Bool, true, false, Option, none, some, List, [], ◌∷◌, ℤ, pos, negsuc, zero, suc,
  is_empty, after_last, before_first, to_lower, if◌then◌else◌,
}
use cpa_plugin_commandcode.Base.Trim.{trim_space}
use cpa_plugin_commandcode.Base.Dict.{Dict, lookup, insert}

-- `ModelEntry`
pub record ModelEntry : Type 0 where
  pub alias : Bytes
  pub name : Bytes
  pub display_name : Bytes

-- `APIKeyEntry`
pub record ApiKeyEntry : Type 0 where
  pub key : Bytes
  pub weight : ℤ
  pub proxy_url : Bytes
  pub disabled : Bool

-- `pluginConfig`; the tables are nil maps until they are built.
pub record PluginConfig : Type 0 where
  pub enabled : Bool
  pub priority : ℤ
  pub models : List ModelEntry
  pub base_url : Bytes
  pub api_key : Bytes
  pub api_keys : List ApiKeyEntry
  pub claimed : Option (Dict (Unit {0}))
  pub rewrites : Option (Dict Bytes)

-- `normWeight`
unfoldable pub norm_weight : ApiKeyEntry → ℕ
norm_weight en = elim en.weight [ pos zero ↦ 1 | pos (suc n) ↦ suc n | negsuc n ↦ 1 ]

-- `label`
unfoldable pub label : ModelEntry → Bytes
label m =
    let shown = trim_space m.display_name in
    let name = trim_space m.name in
    if is_empty shown then (if is_empty name then trim_space m.alias else name) else shown

-- The value that a `some` holds, or the default.
abbrev pub or_else {ℓ} : {A : Type ℓ} → Option A → A → A
or_else none d = d
or_else (some a) d = a

-- The part of a model name in front of an alias suffix "(…)", trimmed; all of it without one.
unfoldable pub drop_suffix : Bytes → Bytes
drop_suffix m = elim (before_first b'(' m) [ none ↦ m | some front ↦ trim_space front ]

-- `normalizeModel`
unfoldable pub normalize_model : Bytes → Bytes
normalize_model model =
    let m = trim_space model in to_lower (drop_suffix (or_else (after_last b'/' m) m))

-- `defaultModelEntries`
abbrev pub default_model_entries : List ModelEntry
default_model_entries =
    record {
      alias = codes "deepseek-flash";
      name = codes "deepseek/deepseek-v4.1-flash";
      display_name = [];
    }
    ∷ record { alias = codes "glm-5.3-flash"; name = codes "z-ai/glm-5.3-flash"; display_name = [] }
    ∷ []

-- `effectiveModels`
unfoldable pub effective_models : Option PluginConfig → List ModelEntry
effective_models none = default_model_entries
effective_models (some c) = if is_empty c.models then default_model_entries else c.models

abbrev pub Tables : Type 0
Tables = Dict (Unit {0}) × Dict Bytes

-- `m[k] = v` under the guard `k != ""`.
unfoldable pub insert_named {ℓ} : {V : Type ℓ} → Bytes → V → Dict V → Dict V
unfolding insert
insert_named [] v m = m
insert_named (x ∷ k) v m = insert (x ∷ k) v m

-- One round of the loop of `buildIndexes`.
unfoldable pub index_entry : ModelEntry → Tables → Tables
unfolding insert_named
index_entry entry (claimed, rewrites) =
    let alias = normalize_model entry.alias in
    let name = trim_space entry.name in
    let claimed = insert_named alias tt claimed in
    if is_empty name
    then (claimed, rewrites)
    else (let normalized_name = normalize_model name in
        (
          insert_named normalized_name tt claimed,
          insert_named normalized_name name (insert_named alias name rewrites),
        ))

unfoldable pub index_entries : List ModelEntry → Tables → Tables
index_entries [] t = t
index_entries (entry ∷ entries) t = index_entries entries (index_entry entry t)

-- `buildIndexes`
unfoldable pub build_indexes : PluginConfig → PluginConfig
build_indexes c =
    let t = index_entries (effective_models (some c)) ([], []) in
    record c { claimed = some t.0; rewrites = some t.1 }

-- `ensureIndexes`
unfoldable pub ensure_indexes : Option PluginConfig → Option PluginConfig
ensure_indexes none = none
ensure_indexes (some c) = elim c.claimed [ none ↦ some (build_indexes c) | some _ ↦ some c ]

-- `modelSet`
unfoldable pub model_set : Option PluginConfig → Dict (Unit {0})
model_set none = []
model_set (some c) = or_else c.claimed []

-- `upstreamName`; "" stands for a missing key, as in the source.
unfoldable pub upstream_name : Option PluginConfig → Bytes → Bytes
upstream_name none model = []
upstream_name (some c) model =
    let table = or_else c.rewrites [] in
    if is_empty table then [] else or_else (lookup (normalize_model model) table) []

abbrev pub upstream_base_url : Bytes
upstream_base_url = codes "https://api.commandcode.ai/provider/v1"

-- `baseURL`
unfoldable pub base_url : Option PluginConfig → Bytes
base_url none = upstream_base_url
base_url (some c) = if is_empty c.base_url then upstream_base_url else c.base_url

abbrev pub zero_config : PluginConfig
zero_config = record {
  enabled = false;
  priority = pos 0;
  models = [];
  base_url = [];
  api_key = [];
  api_keys = [];
  claimed = none;
  rewrites = none;
}

-- yaml.v3, which the sources only call: `unmarshal` is yaml.Unmarshal into a *pluginConfig, with
-- the error dropped, and `scalar`, `decode` read a *yaml.Node.
pub record Yaml : Type 1 where
  pub Node : Type 0
  pub scalar : Node → Option Bytes
  pub decode : Node → Option ModelEntry
  pub unmarshal : Bytes → PluginConfig → PluginConfig

-- `UnmarshalYAML` of ModelEntry, on the entry that it fills; `none` is the error of `Decode`.
unfoldable pub unmarshal_model : (y : Yaml) → y.Node → ModelEntry → Option ModelEntry
unmarshal_model y node m = elim (y.scalar node) [
  | some value ↦ some (record m { alias = trim_space value })
  | none ↦ y.decode node
]

-- `parseConfig`
unfoldable pub parse_config : Yaml → Bytes → PluginConfig
parse_config y raw =
    if is_empty raw then build_indexes zero_config else build_indexes (y.unmarshal raw zero_config)

-- ===== src/Models.antt =====
-- models.go: the list of models that the host registers.
pub mod Routed
mod Tests
use cpa_plugin_commandcode.Base.{
  Bytes, codes, Bool, true, Option, List, [], ◌∷◌, ◌++◌, map, is_empty, if◌then◌else◌,
}
use cpa_plugin_commandcode.Base.Trim.{trim_space}
use cpa_plugin_commandcode.Config.{ModelEntry, PluginConfig, label, effective_models}

-- `Provider`
abbrev pub provider : Bytes
provider = codes "commandcode"

-- `modelDef`
pub record ModelDef : Type 0 where
  pub id : Bytes
  pub display_name : Bytes

-- The name under which an entry is advertised, "" if it is skipped.
unfoldable pub advertised : ModelEntry → Bytes
advertised entry =
    let name = trim_space entry.name in if is_empty name then trim_space entry.alias else name

unfoldable pub model_def : ModelEntry → ModelDef
model_def entry = record {
  id = provider ++ b'/' ∷ advertised entry;
  display_name = label entry ++ codes " via CommandCode";
}

-- The loop of `registryModels`.
unfoldable pub model_defs : List ModelEntry → List ModelDef
model_defs [] = []
model_defs (entry ∷ entries) =
    let rest = model_defs entries in
    if is_empty (advertised entry) then rest else model_def entry ∷ rest

-- `registryModels`
unfoldable pub registry_models : Option PluginConfig → List ModelDef
registry_models cfg = model_defs (effective_models cfg)

-- The fields of pluginapi.ModelInfo that the plugin sets.
pub record ModelInfo : Type 0 where
  pub id : Bytes
  pub object : Bytes
  pub owned_by : Bytes
  pub kind : Bytes
  pub display_name : Bytes
  pub name : Bytes
  pub description : Bytes
  pub generation_methods : List Bytes
  pub input_modalities : List Bytes
  pub output_modalities : List Bytes
  pub parameters : List Bytes
  pub dynamic_allowed : Bool
  pub levels : List Bytes

unfoldable pub model_info : ModelDef → ModelInfo
model_info def = record {
  id = def.id;
  object = codes "model";
  owned_by = codes "commandcode";
  kind = codes "chat";
  display_name = def.display_name;
  name = def.id;
  description = def.display_name;
  generation_methods = codes "chatCompletions" ∷ [];
  input_modalities = codes "text" ∷ [];
  output_modalities = codes "text" ∷ [];
  parameters =
      codes "temperature"
      ∷ codes "top_p"
      ∷ codes "max_tokens"
      ∷ codes "stop"
      ∷ codes "tools"
      ∷ codes "reasoning_effort"
      ∷ [];
  dynamic_allowed = true;
  levels =
      codes "none" ∷ codes "auto" ∷ codes "low" ∷ codes "medium" ∷ codes "high" ∷ codes "max" ∷ [];
}

-- `models`
unfoldable pub models : Option PluginConfig → List ModelInfo
models cfg = map model_info (registry_models cfg)

-- pluginapi.ModelResponse
pub record ModelResponse : Type 0 where
  pub provider_key : Bytes
  pub listed : List ModelInfo

-- `StaticModels` and `ModelsForAuth`, which give the same answer.
unfoldable pub static_models : Option PluginConfig → ModelResponse
static_models cfg = record { provider_key = provider; listed = models cfg }

unfoldable pub models_for_auth : Option PluginConfig → ModelResponse
models_for_auth cfg = record { provider_key = provider; listed = models cfg }

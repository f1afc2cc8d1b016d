-- ===== src/Config/Tests.antt =====
-- Examples for the theorems about the configuration.
use cpa_plugin_commandcode.Base.{
  codes, some, ◌≡◌, refl, to_lower, before_first, after_last, bytes_eq,
}
use cpa_plugin_commandcode.Base.Dict.{lookup}
use cpa_plugin_commandcode.Base.Trim.{trim_space}
use cpa_plugin_commandcode.Config.{
  normalize_model, effective_models, build_indexes, ensure_indexes, upstream_name, index_entries,
  index_entry, drop_suffix, parse_config,
}
use cpa_plugin_commandcode.Config.Claims.{ensure_indexes-parse_config}
use cpa_plugin_commandcode.Toys.{toy_config, toy_yaml}

upstream_name-flash :
    upstream_name (some (build_indexes toy_config)) (codes "x/FLASH (1)") ≡ codes "Deep/v4"
unfolding upstream_name build_indexes normalize_model trim_space lookup index_entries
    effective_models index_entry to_lower drop_suffix before_first after_last bytes_eq
upstream_name-flash = refl

ensure_indexes-parse_config_example :
    ensure_indexes (some (parse_config toy_yaml (codes "enabled: true")))
    ≡ some (parse_config toy_yaml (codes "enabled: true"))
ensure_indexes-parse_config_example = ensure_indexes-parse_config toy_yaml (codes "enabled: true")

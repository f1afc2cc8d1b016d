-- ===== src/Models/Tests.antt =====
-- An example for the theorem about the registered models.
use cpa_plugin_commandcode.Base.{codes, some, All}
use cpa_plugin_commandcode.Config.{build_indexes}
use cpa_plugin_commandcode.Models.{registry_models}
use cpa_plugin_commandcode.Models.Routed.{IsRouted, registry_models-IsRouted}
use cpa_plugin_commandcode.Toys.{toy_config}

registry_models-IsRouted_example :
    All
      (IsRouted (build_indexes toy_config) (codes "{}"))
      (registry_models (some (build_indexes toy_config)))
registry_models-IsRouted_example = registry_models-IsRouted toy_config (codes "{}")

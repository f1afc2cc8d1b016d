-- ===== src/Router/OrderTests.antt =====
-- An example for the theorem about the order of the entries.
use cpa_plugin_commandcode.Base.{
  Bytes, codes, true, some, [], ◌∷◌, ◌≡◌, sym, ◌∙◌, any, bytes_eq-eq, arith,
}
use cpa_plugin_commandcode.Base.Trim.{trim_space}
use mathlib.Core.List.Perm
use mathlib.Mathlib.Data.Multiset.Defs.{coe-eq-coe}
use cpa_plugin_commandcode.Config.{
  ModelEntry, PluginConfig, zero_config, build_indexes, effective_models, upstream_name,
}
use cpa_plugin_commandcode.Config.Order.{rewrites_to, Agree}
use cpa_plugin_commandcode.Router.{route_model}
use cpa_plugin_commandcode.Router.Order.{entries_of, route_model-of_list}

-- Two aliases of one vendor model.
abbrev first_entry : ModelEntry
first_entry = record { name = codes "v/m"; alias = codes "a"; display_name = [] }

abbrev second_entry : ModelEntry
second_entry = record { name = codes "v/m"; alias = codes "b"; display_name = [] }

abbrev one_way : PluginConfig
one_way = record zero_config { models = first_entry ∷ second_entry ∷ [] }

abbrev other_way : PluginConfig
other_way = record zero_config { models = second_entry ∷ first_entry ∷ [] }

rewrites_to-name : (k n : Bytes) (e : ModelEntry) → rewrites_to k n e ≡ true → trim_space e.name ≡ n
rewrites_to-name k n e h = ground (arith, bytes_eq-eq (trim_space e.name) n)

rewrites-name :
    (k n : Bytes)
    → any (rewrites_to k n) (first_entry ∷ second_entry ∷ []) ≡ true
    → trim_space (codes "v/m") ≡ n
rewrites-name k n h =
    ground (arith, rewrites_to-name k n first_entry, rewrites_to-name k n second_entry)

one_way-Agree : Agree (effective_models (some one_way))
unfolding effective_models
one_way-Agree k n m h l = sym (rewrites-name k n h) ∙ rewrites-name k m l

same_entries : entries_of one_way ≡ entries_of other_way
unfolding effective_models
same_entries = coe-eq-coe.1 (Perm.swap second_entry first_entry [])

route_model-of_list_example :
    (upstream_name (some (build_indexes one_way)) (codes "a")
      ≡ upstream_name (some (build_indexes other_way)) (codes "a"))
    × ((route_model
          (some (build_indexes one_way))
          (record { requested_model = codes "b"; body = [] })).0.handled
        ≡ (route_model
            (some (build_indexes other_way))
            (record { requested_model = codes "b"; body = [] })).0.handled)
route_model-of_list_example =
    route_model-of_list one_way other_way (codes "a")
      (record { requested_model = codes "b"; body = [] }) same_entries one_way-Agree

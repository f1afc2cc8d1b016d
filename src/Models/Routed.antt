-- ===== src/Models/Routed.antt =====
-- What the host registers is what the router takes over.
use mathlib.Core.Path.{subst}
use cpa_plugin_commandcode.Base.{
  Bytes, codes, true, false, some, List, [], ◌∷◌, ◌≡◌, refl, arith, is_empty, bytes_eq_self,
  has_prefix, Bool-cases, inl, inr, ◌⊎◌, All, ◌∙◌,
}
use cpa_plugin_commandcode.Base.Trim.{trim_space, trim_space-IsTrimmed, front_space}
use cpa_plugin_commandcode.Config.{
  ModelEntry, PluginConfig, normalize_model, effective_models, build_indexes,
}
use cpa_plugin_commandcode.Config.Names.{normalize_model-prefix, normalize_model-trim_space}
use cpa_plugin_commandcode.Config.Index.{names, claims}
use cpa_plugin_commandcode.Router.{ModelRouteRequest, route_model}
use cpa_plugin_commandcode.Router.Laws.{claimed_by, route_model-build_indexes}
use cpa_plugin_commandcode.Models.{
  provider, ModelDef, advertised, model_def, model_defs, registry_models,
}

-- The advertised ID stands for the same model as the entry's own name.
normalize_model-id :
    (e : ModelEntry) → normalize_model (model_def e).id ≡ normalize_model (advertised e)
unfolding model_def advertised
normalize_model-id e = elim (Bool-cases (is_empty (trim_space e.name))) [
  | inl blank ↦ rw blank (
      normalize_model-prefix provider (trim_space e.alias) (unfold front_space in refl)
        (trim_space-IsTrimmed _))
  | inr named ↦ rw named (
      normalize_model-prefix provider (trim_space e.name) (unfold front_space in refl)
        (trim_space-IsTrimmed _))
]

names_self : (k : Bytes) → (names k k ≡ true) ⊎ (k ≡ [])
names_self [] = inr refl
names_self (x ∷ k) = inl (bytes_eq_self (x ∷ k))

claims-alias :
    (e : ModelEntry) (k : Bytes) → names (normalize_model e.alias) k ≡ true → claims e k ≡ true
claims-alias e k h = ground arith

claims-name :
    (e : ModelEntry) (k : Bytes)
    → is_empty (trim_space e.name) ≡ false
    → names (normalize_model (trim_space e.name)) k ≡ true
    → claims e k ≡ true
claims-name e k named h = ground arith

-- The advertised name is the vendor name, or the alias where there is none.
advertised-cases :
    (e : ModelEntry)
    → (normalize_model (advertised e) ≡ normalize_model e.alias)
      ⊎ ((is_empty (trim_space e.name) ≡ false) × (advertised e ≡ trim_space e.name))
unfolding advertised
advertised-cases e = elim (Bool-cases (is_empty (trim_space e.name))) [
  | inl blank ↦ inl (rw blank (normalize_model-trim_space e.alias))
  | inr named ↦ inr (named, rw named)
]

-- It is claimed by its own entry, unless nothing is left of it.
claims-advertised :
    (e : ModelEntry) → let k = normalize_model (advertised e) in (claims e k ≡ true) ⊎ (k ≡ [])
claims-advertised e =
    let k = normalize_model (advertised e) in
    elim (names_self k) [
      | inr h ↦ inr h
      | inl h ↦ inl (elim (advertised-cases e) [
        | inl by_alias ↦ claims-alias e k (subst (λ n. names n k ≡ true) by_alias h)
        | inr (named, same) ↦
            claims-name e k named (subst (λ n. names (normalize_model n) k ≡ true) same h)
      ])
    ]

-- The ID stands in the plugin's namespace, and the entries claim it unless nothing is left of it.
abbrev IsClaimed : List ModelEntry → ModelDef → Type 0
IsClaimed es d =
    (has_prefix d.id (codes "commandcode/") ≡ true)
    × ((claimed_by es d.id ≡ true) ⊎ (normalize_model d.id ≡ []))

claimed_by-cons :
    (e : ModelEntry) (es : List ModelEntry) (n : Bytes)
    → claimed_by es n ≡ true
    → claimed_by (e ∷ es) n ≡ true
claimed_by-cons e es n h = ground arith

All-IsClaimed-cons :
    (e : ModelEntry) (es : List ModelEntry) (ds : List ModelDef)
    → All (IsClaimed es) ds
    → All (IsClaimed (e ∷ es)) ds
All-IsClaimed-cons e es [] h = tt
All-IsClaimed-cons e es (d ∷ ds) ((q, inl p), h) =
    ((q, inl (claimed_by-cons e es d.id p)), All-IsClaimed-cons e es ds h)
All-IsClaimed-cons e es (d ∷ ds) ((q, inr p), h) = ((q, inr p), All-IsClaimed-cons e es ds h)

claimed_by-here :
    (e : ModelEntry) (es : List ModelEntry) (n : Bytes)
    → is_empty n ≡ false
    → claims e (normalize_model n) ≡ true
    → claimed_by (e ∷ es) n ≡ true
claimed_by-here e es n full h = ground arith

model_def-id-full : (e : ModelEntry) → is_empty (model_def e).id ≡ false
unfolding model_def
model_def-id-full e = refl

model_def-prefix : (e : ModelEntry) → has_prefix (model_def e).id (codes "commandcode/") ≡ true
unfolding model_def has_prefix
model_def-prefix e = refl

model_def-IsClaimed : (e : ModelEntry) (es : List ModelEntry) → IsClaimed (e ∷ es) (model_def e)
model_def-IsClaimed e es = elim (claims-advertised e) [
  | inl h ↦
      let claimed = rw (← normalize_model-id e) at h in
      (
        model_def-prefix e,
        inl (claimed_by-here e es (model_def e).id (model_def-id-full e) claimed),
      )
  | inr h ↦ (model_def-prefix e, inr (normalize_model-id e ∙ h))
]

model_defs-IsClaimed : (es : List ModelEntry) → All (IsClaimed es) (model_defs es)
unfolding model_defs
model_defs-IsClaimed [] = tt
model_defs-IsClaimed (e ∷ es) =
    let later = All-IsClaimed-cons e es (model_defs es) (model_defs-IsClaimed es) in
    elim (Bool-cases (is_empty (advertised e))) [
      | inl skipped ↦ rw (skipped, model_defs) later
      | inr listed ↦ rw (listed, model_defs) (model_def-IsClaimed e es, later)
    ]

-- A request for an advertised ID.
abbrev pub request_for : ModelDef → Bytes → ModelRouteRequest
request_for d body = record { requested_model = d.id; body = body }

-- Advertised in the plugin's namespace, and taken over by `RouteModel` with any body, unless the
-- normal form of the ID is empty.
abbrev pub IsRouted : PluginConfig → Bytes → ModelDef → Type 0
IsRouted c body d =
    (has_prefix d.id (codes "commandcode/") ≡ true)
    × (((route_model (some c) (request_for d body)).0.handled ≡ true) ⊎ (normalize_model d.id ≡ []))

IsRouted-All :
    (c : PluginConfig) (body : Bytes) (ds : List ModelDef)
    → All (IsClaimed (effective_models (some c))) ds
    → All (IsRouted (build_indexes c) body) ds
IsRouted-All c body [] h = tt
IsRouted-All c body (d ∷ ds) ((q, inl p), h) =
    let routed = (route_model-build_indexes c (request_for d body)).0 in
    ((q, inl (routed ∙ rw p)), IsRouted-All c body ds h)
IsRouted-All c body (d ∷ ds) ((q, inr p), h) = ((q, inr p), IsRouted-All c body ds h)

-- The advertised list and the routing are in step: every model that a built configuration
-- registers has an ID in the namespace commandcode/, and `RouteModel` takes a request for that ID
-- over whatever its body is, unless the normal form of the ID is empty.
pub registry_models-IsRouted :
    (c : PluginConfig) (body : Bytes)
    → All (IsRouted (build_indexes c) body) (registry_models (some (build_indexes c)))
unfolding registry_models effective_models build_indexes
registry_models-IsRouted c body =
    IsRouted-All c body _ (model_defs-IsClaimed (effective_models (some c)))

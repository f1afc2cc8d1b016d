-- ===== src/Config/Index.antt =====
-- `buildIndexes` against a specification by entries: which names are claimed, and which vendor
-- name a claimed name is rewritten to.
use cpa_plugin_commandcode.Base.{
  Bytes, Bool, true, ◌||◌, ◌&&◌, not, Option, none, some, List, [], ◌∷◌, ◌≡◌, refl, arith, is_empty,
  bytes_eq, any, if◌then◌else◌, inr, ◌⊎◌, ◌∙◌, ap,
}
use cpa_plugin_commandcode.Base.Trim.{trim_space}
use cpa_plugin_commandcode.Base.Dict.{Dict, lookup, lookup-insert}
use cpa_plugin_commandcode.Config.{
  ModelEntry, PluginConfig, Tables, normalize_model, effective_models, insert_named, index_entry,
  index_entries, build_indexes, or_else, model_set, upstream_name,
}

-- `k` is the name `n`, and is not empty.
abbrev pub names : Bytes → Bytes → Bool
names n k = not (is_empty k) && bytes_eq n k

-- The entry claims the normalised name `k`: by its alias, or by its vendor name if it has one.
abbrev pub claims : ModelEntry → Bytes → Bool
claims e k =
    let name = trim_space e.name in
    names (normalize_model e.alias) k || (not (is_empty name) && names (normalize_model name) k)

-- The vendor name to which the entry rewrites `k`.
abbrev pub rewrite_of : ModelEntry → Bytes → Option Bytes
rewrite_of e k =
    let name = trim_space e.name in if not (is_empty name) && claims e k then some name else none

-- `d`, unless there is a newer value.
abbrev pub newer : Option Bytes → Option Bytes → Option Bytes
newer none d = d
newer (some n) d = some n

-- The last entry that rewrites `k` decides, and `d` if none does.
abbrev pub last_rewrite : List ModelEntry → Bytes → Option Bytes → Option Bytes
last_rewrite [] k d = d
last_rewrite (e ∷ es) k d = last_rewrite es k (newer (rewrite_of e k) d)

lookup-insert_named {ℓ} :
    {V : Type ℓ} (n k : Bytes) (v : V) (m : Dict V)
    → lookup k (insert_named n v m) ≡ (if names n k then some v else lookup k m)
unfolding insert_named
lookup-insert_named [] [] v m = refl
lookup-insert_named [] (y ∷ k) v m = unfold bytes_eq in refl
lookup-insert_named (x ∷ n) [] v m = unfold bytes_eq in lookup-insert (x ∷ n) [] v m
lookup-insert_named (x ∷ n) (y ∷ k) v m = lookup-insert (x ∷ n) (y ∷ k) v m

index_entry-claimed :
    (e : ModelEntry) (k : Bytes) (t : Tables)
    → lookup k (index_entry e t).0 ≡ (if claims e k then some tt else lookup k t.0)
unfolding index_entry
index_entry-claimed e k (claimed, rewrites) =
    let alias = normalize_model e.alias in
    let name = normalize_model (trim_space e.name) in
    ground (
      arith,
      lookup-insert_named alias k tt claimed,
      lookup-insert_named name k tt (insert_named alias tt claimed),
    )

index_entry-rewrites :
    (e : ModelEntry) (k : Bytes) (t : Tables)
    → lookup k (index_entry e t).1 ≡ newer (rewrite_of e k) (lookup k t.1)
unfolding index_entry
index_entry-rewrites e k (claimed, rewrites) =
    let name = trim_space e.name in
    let alias = normalize_model e.alias in
    ground (
      arith,
      lookup-insert_named alias k name rewrites,
      lookup-insert_named (normalize_model name) k name (insert_named alias name rewrites),
    )

index_entries-claimed :
    (es : List ModelEntry) (k : Bytes) (t : Tables)
    → lookup k (index_entries es t).0 ≡ (if any (λ e. claims e k) es then some tt else lookup k t.0)
unfolding index_entries
index_entries-claimed [] k t = refl
index_entries-claimed (e ∷ es) k t =
    ground (arith, index_entries-claimed es k (index_entry e t), index_entry-claimed e k t)

index_entries-rewrites :
    (es : List ModelEntry) (k : Bytes) (t : Tables)
    → lookup k (index_entries es t).1 ≡ last_rewrite es k (lookup k t.1)
unfolding index_entries
index_entries-rewrites [] k t = refl
index_entries-rewrites (e ∷ es) k t =
    rw (index_entries-rewrites es k (index_entry e t), index_entry-rewrites e k t)

-- After `buildIndexes` a name is in the claimed set exactly if some effective entry claims it.
pub model_set-build_indexes :
    (c : PluginConfig) (k : Bytes)
    → lookup k (model_set (some (build_indexes c)))
      ≡ (if any (λ e. claims e k) (effective_models (some c)) then some tt else none)
unfolding model_set build_indexes lookup
model_set-build_indexes c k = index_entries-claimed (effective_models (some c)) k ([], [])

lookup-is_empty :
    (k : Bytes) (m : Dict Bytes)
    → (if is_empty m then [] else or_else (lookup k m) []) ≡ or_else (lookup k m) []
unfolding lookup
lookup-is_empty k [] = refl
lookup-is_empty k (x ∷ m) = refl

pub upstream_name-build_indexes :
    (c : PluginConfig) (model : Bytes)
    → upstream_name (some (build_indexes c)) model
      ≡ or_else (last_rewrite (effective_models (some c)) (normalize_model model) none) []
unfolding upstream_name build_indexes lookup
upstream_name-build_indexes c model =
    let es = effective_models (some c) in
    let k = normalize_model model in
    lookup-is_empty k (index_entries es ([], [])).1
    ∙ ap (λ o. or_else o []) (index_entries-rewrites es k ([], []))

pub last_rewrite-claims :
    (es : List ModelEntry) (k : Bytes) (d : Option Bytes) {n : Bytes}
    → last_rewrite es k d ≡ some n
    → (any (λ e. claims e k) es ≡ true) ⊎ (d ≡ some n)
last_rewrite-claims [] k d h = inr h
last_rewrite-claims (e ∷ es) k d h =
    ground (arith, last_rewrite-claims es k (newer (rewrite_of e k) d) h)

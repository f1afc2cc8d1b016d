-- ===== src/Router.antt =====
-- router.go: which requests this plugin takes over.
pub mod Scan
pub mod Order
pub mod Laws
mod Tests
mod OrderTests
use cpa_plugin_commandcode.Base.{
  ℕ, Bytes, codes, Bool, true, false, ◌||◌, Option, none, some, List, [], ◌∷◌, ◌++◌, is_empty, ◌==◌,
  if◌then◌else◌, has_prefix, drop,
}
use cpa_plugin_commandcode.Base.Dict.{Dict, lookup}
use cpa_plugin_commandcode.Config.{PluginConfig, normalize_model, ensure_indexes, model_set}

-- The fields of pluginapi.ModelRouteRequest that the router reads.
pub record ModelRouteRequest : Type 0 where
  pub requested_model : Bytes
  pub body : Bytes

pub data TargetKind : Type 0 where
  unset self : TargetKind

-- pluginapi.ModelRouteResponse
pub record ModelRouteResponse : Type 0 where
  pub handled : Bool
  pub target_kind : TargetKind
  pub reason : Bytes

abbrev pub marker : Bytes
marker = codes "\"model\""

-- The scan for the marker: what follows its first occurrence.
unfoldable pub after_marker : Bytes → Option Bytes
unfolding has_prefix
after_marker [] = none
after_marker (x ∷ s) = if has_prefix (x ∷ s) marker then some (drop 7 (x ∷ s)) else after_marker s

-- White space of JSON, or a colon.
unfoldable pub is_separator : ℕ → Bool
is_separator c = c == b' ' || c == 9 || c == 13 || c == 10 || c == b':'

unfoldable pub skip_separators : Bytes → Bytes
unfolding is_separator
skip_separators [] = []
skip_separators (c ∷ s) = let rest = skip_separators s in if is_separator c then rest else c ∷ s

-- The loop that reads the string, on the bytes written so far; "" if no quote closes it.
unfoldable pub read_string : Bytes → Bytes → Bytes
read_string [] b = []
read_string (c ∷ []) b = if c == b'"' then b else []
read_string (c ∷ d ∷ s) b = elim (c == b'\\') [
  | true ↦ read_string s (b ++ d ∷ [])
  | false ↦ elim (c == b'"') [ true ↦ b | false ↦ read_string (d ∷ s) (b ++ c ∷ []) ]
]

unfoldable pub read_quoted : Bytes → Bytes
read_quoted [] = []
read_quoted (c ∷ s) = if c == b'"' then read_string s [] else []

-- `modelFromBody`
unfoldable pub model_from_body : Bytes → Bytes
model_from_body body = elim (after_marker body) [
  | none ↦ []
  | some rest ↦ read_quoted (skip_separators rest)
]

-- Whether the table holds a candidate.
unfoldable pub holds : Dict (Unit {0}) → Bytes → Bool
holds set candidate =
    if is_empty candidate
    then false
    else elim (lookup (normalize_model candidate) set) [ none ↦ false | some _ ↦ true ]

-- `owned`, on the tables that `ensureIndexes` has built.
unfoldable pub owned : Option PluginConfig → ModelRouteRequest → Bool
owned cfg req =
    let set = model_set cfg in holds set req.requested_model || holds set (model_from_body req.body)

-- `RouteModel`, with the configuration that it leaves behind.
unfoldable pub route_model :
    Option PluginConfig → ModelRouteRequest → ModelRouteResponse × Option PluginConfig
unfolding owned
route_model cfg req =
    let cfg = ensure_indexes cfg in
    if owned cfg req
    then (
      record { handled = true; target_kind = self; reason = codes "commandcode provider plugin" },
      cfg,
    )
    else (record { handled = false; target_kind = unset; reason = [] }, cfg)

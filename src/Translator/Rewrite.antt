-- ===== src/Translator/Rewrite.antt =====
-- `normalizeRequestModel`: which model the request names behind it.
use cpa_plugin_commandcode.Base.{
  Bytes, codes, true, false, some, List, [], ◌∷◌, is_empty, bytes_eq, bytes_eq-eq, bytes_eq_self,
  ◌≡◌, ◌≢◌, refl, ap, ◌∙◌, ◌⊎◌, inl, inr, Bool-cases,
}
use cpa_plugin_commandcode.Base.Trim.{trim_space, trim_space_idem}
use cpa_plugin_commandcode.Config.{
  ModelEntry, PluginConfig, effective_models, build_indexes, ensure_indexes, upstream_name, or_else,
}
use cpa_plugin_commandcode.Config.Claims.{IsVendorName, upstream_name-claimed}
use cpa_plugin_commandcode.Base.Utf8.{valid_utf8}
use cpa_plugin_commandcode.Json.{Json}
use cpa_plugin_commandcode.Translator.{get_string, normalize_request_model}

-- What the plugin relies on: in a valid body sjson gives a valid body, from which gjson reads the
-- string that was set, if this is UTF-8.
pub record SetModel (json : Json) : Type 0 where
  pub set_valid :
      (body value updated : Bytes)
      → json.valid body ≡ true
      → json.set_string body (codes "model") value ≡ some updated
      → json.valid updated ≡ true
  pub get_set :
      (body value updated : Bytes)
      → json.valid body ≡ true
      → valid_utf8 value ≡ true
      → json.set_string body (codes "model") value ≡ some updated
      → get_string json updated (codes "model") ≡ value

-- A vendor name has white space at neither end.
IsVendorName-trim_space : (n : Bytes) (es : List ModelEntry) → IsVendorName n es → trim_space n ≡ n
IsVendorName-trim_space n [] h = absurd h
IsVendorName-trim_space n (e ∷ es) (inl h) = rw h (trim_space_idem e.name)
IsVendorName-trim_space n (e ∷ es) (inr h) = IsVendorName-trim_space n es h

module _ (json : Json) where
  -- The model that a body names, as `normalizeRequestModel` compares it.
  abbrev pub current_model : Bytes → Bytes
  current_model body = trim_space (get_string json body (codes "model"))

  -- A body that is not empty, for a model with a vendor name.
  normalize_request_model-cases :
      (c : PluginConfig) (model body : Bytes)
      → let name = upstream_name (ensure_indexes (some c)) model in
        let sent = normalize_request_model json (some c) model body in
        is_empty body ≡ false
        → is_empty name ≡ false
        → ((current_model body ≡ name) × (sent ≡ body))
          ⊎ ((current_model body ≢ name)
              × (sent ≡ or_else (json.set_string body (codes "model") name) body))
  unfolding normalize_request_model
  normalize_request_model-cases c model body full named =
      let name = upstream_name (ensure_indexes (some c)) model in
      elim (Bool-cases (bytes_eq (current_model body) name)) [
        | inl same ↦ inl (bytes_eq-eq _ name same, rw (same, full, named))
        | inr other ↦
            inr ((λ h. absurd (cc (rw h at other, bytes_eq_self name))), rw (other, full, named))
      ]

  ensure_indexes-built :
      (c : PluginConfig) → ensure_indexes (some (build_indexes c)) ≡ some (build_indexes c)
  unfolding ensure_indexes build_indexes
  ensure_indexes-built c = refl

  -- With a built configuration, a request that is not empty names literally the vendor's model
  -- behind `normalizeRequestModel`, if its model has a vendor name and the JSON library can set the
  -- field. The body is valid, and so is the result.
  pub normalize_request_model-vendor :
      SetModel json
      → (c : PluginConfig) (model body updated : Bytes)
      → let name = upstream_name (some (build_indexes c)) model in
        let sent = normalize_request_model json (some (build_indexes c)) model body in
        is_empty body ≡ false
        → json.valid body ≡ true
        → is_empty name ≡ false
        → valid_utf8 name ≡ true
        → json.set_string body (codes "model") name ≡ some updated
        → (current_model sent ≡ name) × (json.valid sent ≡ true)
  normalize_request_model-vendor laws c model body updated full good named text done =
      let name = upstream_name (some (build_indexes c)) model in
      let built = ap (λ x. upstream_name x model) (ensure_indexes-built c) in
      elim (normalize_request_model-cases (build_indexes c) model body full (rw built named)) [
        | inl (same, kept) ↦ rw kept (same ∙ built, good)
        | inr (_, set) ↦
            let filled : name ≢ [] = λ h. absurd (cc (rw h at named)) in
            let vendor = (upstream_name-claimed c model filled).1 in
            rw set (
              rw (built, done)
                (
                  ap trim_space (laws.get_set body name updated good text done)
                      ∙ IsVendorName-trim_space name (effective_models (some c)) vendor,
                  laws.set_valid body name updated good done,
                ))
      ]

-- ===== src/Translator.antt =====
-- translator.go and jsonutil.go: the request's model is rewritten to the vendor's name, and the
-- response goes through the reasoning backfill.
pub mod Rewrite
use cpa_plugin_commandcode.Base.{
  Bytes, codes, Bool, true, false, not, ◌&&◌, ◌||◌, Option, none, some, List, [], ◌∷◌, ◌++◌, ◌⊎◌,
  inl, inr, is_empty, if◌then◌else◌, bytes_eq, to_lower, any,
}
use cpa_plugin_commandcode.Base.Trim.{trim_space}
use cpa_plugin_commandcode.Config.{PluginConfig, ensure_indexes, upstream_name, or_else}
use cpa_plugin_commandcode.Json.{Json}
use cpa_plugin_commandcode.Pool.{Error, plain_error}
use cpa_plugin_commandcode.Reasoning.{map_reasoning_body}

-- pluginapi.RequestTransformRequest and ResponseTransformRequest, as far as they are read.
pub record TransformRequest : Type 0 where
  pub from_format : Bytes
  pub to_format : Bytes
  pub model : Bytes
  pub body : Bytes

-- A format name as the switch statements compare it.
unfoldable pub format_name : Bytes → Bytes
format_name s = to_lower (trim_space s)

-- Whether a name is one of a list.
abbrev pub one_of : List Bytes → Bytes → Bool
one_of names s = any (bytes_eq s) names

-- The formats that a request may be translated to, those whose model is rewritten, and the formats
-- that a response may be translated from and to.
abbrev pub request_targets : List Bytes
request_targets = [] ∷ codes "commandcode" ∷ codes "openai" ∷ []

abbrev pub rewritten_sources : List Bytes
rewritten_sources = [] ∷ codes "openai" ∷ codes "commandcode" ∷ []

abbrev pub response_sources : List Bytes
response_sources = [] ∷ codes "commandcode" ∷ codes "openai" ∷ []

abbrev pub response_targets : List Bytes
response_targets =
    [] ∷ codes "openai" ∷ codes "claude" ∷ codes "openai-response" ∷ codes "commandcode" ∷ []

abbrev pub unsupported : Bytes → TransformRequest → Error
unsupported what req = plain_error (
    codes "unsupported "
    ++ (what ++ (codes " translation " ++ (req.from_format ++ (codes " -> " ++ req.to_format)))))

module _ (json : Json) where
  open json use {valid, get_bytes, is_string, text, set_string}

  -- `gjsonGetString`
  unfoldable pub get_string : Bytes → Bytes → Bytes
  get_string body path =
      let v = get_bytes body path in
      if is_empty body || not (valid body) then [] else if is_string v then text v else []

  -- `normalizeRequestModel`
  unfoldable pub normalize_request_model : Option PluginConfig → Bytes → Bytes → Bytes
  unfolding get_string
  normalize_request_model cfg model body =
      let vendor_name = upstream_name (ensure_indexes cfg) model in
      let current = trim_space (get_string body (codes "model")) in
      if is_empty body
      then body
      else if is_empty vendor_name
      then body
      else if bytes_eq current vendor_name
      then body
      else or_else (set_string body (codes "model") vendor_name) body

  -- `TranslateRequest`
  unfoldable pub translate_request : Option PluginConfig → TransformRequest → Error ⊎ Bytes
  unfolding format_name normalize_request_model
  translate_request cfg req =
      if not (one_of request_targets (format_name req.to_format))
      then inl (unsupported (codes "request") req)
      else if one_of rewritten_sources (format_name req.from_format)
      then inr (normalize_request_model cfg req.model req.body)
      else inr req.body

  -- `TranslateResponse`
  unfoldable pub translate_response : TransformRequest → Error ⊎ Bytes
  unfolding format_name
  translate_response req =
      if not (one_of response_sources (format_name req.from_format))
      then inl (unsupported (codes "response") req)
      else if not (one_of response_targets (format_name req.to_format))
      then inl (unsupported (codes "response") req)
      else inr (map_reasoning_body json req.body).0

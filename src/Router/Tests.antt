-- ===== src/Router/Tests.antt =====
-- Examples for the theorems about the router.
use cpa_plugin_commandcode.Base.{
  codes, true, ◌||◌, some, [], ◌∷◌, ◌++◌, ◌≡◌, refl, if◌then◌else◌, All, contains,
}
use cpa_plugin_commandcode.Config.{effective_models, build_indexes}
use cpa_plugin_commandcode.Router.{
  ModelRouteRequest, self, unset, marker, is_separator, model_from_body, route_model,
}
use cpa_plugin_commandcode.Router.Scan.{
  escape, FirstMarkerAfter, model_from_body-escape, model_from_body-unquoted,
}
use cpa_plugin_commandcode.Router.Laws.{claimed_by, route_model-build_indexes}
use cpa_plugin_commandcode.Toys.{toy_config}

abbrev body_request : ModelRouteRequest
body_request = record { requested_model = []; body = codes "{\"model\": \"Flash\"}" }

route_model-build_indexes_example :
    let es = effective_models (some toy_config) in
    let (answer, left) = route_model (some (build_indexes toy_config)) body_request in
    (answer.handled ≡ (claimed_by es [] || claimed_by es (model_from_body body_request.body)))
    × (answer.target_kind ≡ (if answer.handled then self else unset))
    × (left ≡ some (build_indexes toy_config))
route_model-build_indexes_example = route_model-build_indexes toy_config body_request

brace-first : FirstMarkerAfter (codes "{")
unfolding contains
brace-first = refl

gap-separators : All (λ b. is_separator b ≡ true) (codes ": ")
unfolding is_separator
gap-separators = (refl, (refl, tt))

model_from_body-escape_example :
    model_from_body
      (codes "{" ++ (marker ++ (codes ": " ++ b'"' ∷ (escape (codes "a\"b") ++ b'"' ∷ codes "}"))))
    ≡ codes "a\"b"
model_from_body-escape_example =
    model_from_body-escape (codes "{") (codes ": ") (codes "a\"b") (codes "}") brace-first
      gap-separators

-- The first marker is a value here.
model_from_body-unquoted_example :
    model_from_body (codes "{" ++ (marker ++ (codes ": " ++ b'4' ∷ codes ",\"model\":\"x\"}"))) ≡ []
model_from_body-unquoted_example =
    model_from_body-unquoted (codes "{") (codes ": ") b'4' (codes ",\"model\":\"x\"}") brace-first
      gap-separators (unfold is_separator in refl) refl

-- ===== src/Reasoning/Tests.antt =====
-- Examples for the theorems about the backfill.
use cpa_plugin_commandcode.Base.{
  Bytes, codes, true, [], refl, bytes_eq, ◌∷◌, ◌≡◌, arith, contains, has_prefix,
}
use cpa_plugin_commandcode.Base.Trim.{trim_space}
use cpa_plugin_commandcode.Base.Utf8.{utf8_from, valid_utf8}
use cpa_plugin_commandcode.Config.{or_else}
use cpa_plugin_commandcode.Reasoning.{
  missing_content, reasoning_text, details, detail_texts, has_content, map_reasoning_body,
}
use cpa_plugin_commandcode.Reasoning.Rounds.{content, message}
use cpa_plugin_commandcode.Reasoning.Content.{map_reasoning_body-content}
use cpa_plugin_commandcode.Reasoning.Recorded.{recorded_json, recorded_json-SetContent}

-- A body in which nothing was set.
abbrev fresh_body : Bytes
fresh_body = 0 ∷ codes "reasoning"

named : contains fresh_body (codes "reasoning") ≡ true
unfolding contains has_prefix
named = refl

-- The text that is missing.
thought-text :
    valid_utf8 (or_else (missing_content recorded_json (recorded_json.get [] (message true))) [])
    ≡ true
unfolding missing_content reasoning_text details detail_texts has_content trim_space utf8_from
    bytes_eq
thought-text = refl

map_reasoning_body-content_example :
    content recorded_json (map_reasoning_body recorded_json fresh_body).0 0 (message true)
    ≡ or_else
        (missing_content recorded_json (recorded_json.get [] (message true)))
        (content recorded_json fresh_body 0 (message true))
map_reasoning_body-content_example =
    map_reasoning_body-content recorded_json recorded_json-SetContent fresh_body 0 [] true refl
      named refl (omega arith) refl thought-text

-- ===== src/Executor/Upstream.antt =====
-- `buildUpstreamBody`: which model a request names when it leaves.
use cpa_plugin_commandcode.Base.{Bytes, codes, Bool, true, some, ◌≡◌}
use cpa_plugin_commandcode.Json.{Json}
use cpa_plugin_commandcode.Translator.{get_string}

-- What the plugin relies on: in a valid body, setting the stream fields leaves the model as it is, and
-- the body valid.
pub record SetStream (json : Json) : Type 0 where
  pub stream_valid :
      (body : Bytes) (value : Bool) (updated : Bytes)
      → json.valid body ≡ true
      → json.set_bool body (codes "stream") value ≡ some updated
      → json.valid updated ≡ true
  pub get_stream :
      (body : Bytes) (value : Bool) (updated : Bytes)
      → json.valid body ≡ true
      → json.set_bool body (codes "stream") value ≡ some updated
      → get_string json updated (codes "model") ≡ get_string json body (codes "model")
  pub get_usage :
      (body : Bytes) (value : Bool) (updated : Bytes)
      → json.valid body ≡ true
      → json.set_bool body (codes "stream_options.include_usage") value ≡ some updated
      → get_string json updated (codes "model") ≡ get_string json body (codes "model")

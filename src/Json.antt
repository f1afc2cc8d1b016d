-- ===== src/Json.antt =====
-- The JSON libraries that the plugin calls: encoding/json, github.com/tidwall/gjson and
-- github.com/tidwall/sjson. They are parameters of the model.
use cpa_plugin_commandcode.Base.{Bytes, Bool, Option, List}

pub record Json : Type 1 where
  -- json.Valid
  pub json_valid : Bytes → Bool
  -- gjson.Result, gjson.ValidBytes, gjson.GetBytes and Result.Get
  pub Result : Type 0
  pub valid : Bytes → Bool
  pub get_bytes : Bytes → Bytes → Result
  pub get : Result → Bytes → Result
  -- Result.Exists, IsArray, IsObject, `Type == gjson.String` and String
  pub exists : Result → Bool
  pub is_array : Result → Bool
  pub is_object : Result → Bool
  pub is_string : Result → Bool
  pub text : Result → Bytes
  -- Result.Array, and on an array the values that Result.ForEach visits
  pub items : Result → List Result
  -- sjson.SetBytes with a string and with a bool; `none` is its error
  pub set_string : Bytes → Bytes → Bytes → Option Bytes
  pub set_bool : Bytes → Bytes → Bool → Option Bytes
  -- json.Unmarshal into the structs of `upstreamErrorMessage`: the fields "message" and "error",
  -- the latter as raw bytes that are empty if it is missing; "message" alone; and a string
  pub unmarshal_error : Bytes → Option (Bytes × Bytes)
  pub unmarshal_message : Bytes → Option Bytes
  pub unmarshal_string : Bytes → Option Bytes

-- ===== src/Abi/Wire.antt =====
-- The messages of cmd/commandcode/abi.go: methods, answers and envelopes, and what a call returns.
use cpa_plugin_commandcode.Base.{ℕ, Bytes, codes, Bool, true, Option, List, [], ◌∷◌, ◌⊎◌, inl, inr}
use cpa_plugin_commandcode.Pool.{Error}
use cpa_plugin_commandcode.Router.{ModelRouteRequest, ModelRouteResponse}
use cpa_plugin_commandcode.Models.{ModelResponse}
use cpa_plugin_commandcode.Translator.{TransformRequest}
use cpa_plugin_commandcode.Executor.{Outcome, done, failed, panic, ExecutorRequest}
use cpa_plugin_commandcode.Executor.Tokens.{TokenCount}
use cpa_plugin_commandcode.Executor.Run.{Response, StreamResponse, HttpResponse, HttpRequest}
use cpa_plugin_commandcode.Abi.{HostCall, Envelope, ok, error_envelope}
use cpa_plugin_commandcode.Abi.Calls.{marshal_stream}

-- The methods of pluginabi, whose names are not in the sources.
pub data Method : Type 0 where
  register reconfigure quiesce shutdown : Method
  identifier model_static model_for_auth model_route : Method
  request_translate response_translate : Method
  execute_method execute_stream_method count_tokens_method http_request_method : Method
  unknown : Method

-- abiRegistration, as far as the plugin fills it in.
pub record Registration : Type 0 where
  pub name : Bytes
  pub version : Bytes
  pub author : Bytes
  pub repository : Bytes
  pub model_provider : Bool
  pub model_router : Bool
  pub executor : Bool
  pub input_formats : List Bytes
  pub output_formats : List Bytes
  pub request_translator : Bool
  pub response_translator : Bool

-- `pluginVersion` of abi.go, without an override at build time.
abbrev pub plugin_version : Bytes
plugin_version = codes "0.3.3"

-- The descriptor of `Build`, with the version of abi.go, as `handleRegister` passes it on.
abbrev pub registration : Registration
registration = record {
  name = codes "CommandCode Provider";
  version = plugin_version;
  author = codes "cpa-admin";
  repository = codes "https://github.com/ahoo/cpa-plugin-commandcode";
  model_provider = true;
  model_router = true;
  executor = true;
  input_formats = codes "openai" ∷ [];
  output_formats = codes "openai" ∷ [];
  request_translator = true;
  response_translator = true;
}

-- What the plugin answers, before it is marshalled.
pub data Answer : Type 0 where
  empty_answer : Answer
  registered : Registration → Answer
  identity : Bytes → Answer
  listed : ModelResponse → Answer
  routed : ModelRouteResponse → Answer
  translated : Bytes → Answer
  executed : Response → Answer
  streamed : StreamResponse → Answer
  counted : TokenCount → Answer
  fetched : HttpResponse → Answer

-- encoding/json on the messages of the ABI: which method a name is, the requests with the error of
-- reading them, and the bytes of answers and envelopes with the error of writing them. An executor
-- request comes with the ID of the stream that the host wants.
pub record Wire : Type 1 where
  pub method_of : Bytes → Method
  pub read_lifecycle : Bytes → Error ⊎ Bytes
  pub read_static : Bytes → Option Error
  pub read_for_auth : Bytes → Option Error
  pub read_route : Bytes → Error ⊎ ModelRouteRequest
  pub read_request : Bytes → Error ⊎ TransformRequest
  pub read_response : Bytes → Error ⊎ TransformRequest
  pub read_executor : Bytes → Error ⊎ (ExecutorRequest × Bytes)
  pub read_http : Bytes → Error ⊎ HttpRequest
  pub write : Answer → Error ⊎ Bytes
  pub write_envelope : Envelope Bytes → Error ⊎ Bytes

-- What `handleABIMethod` returns: bytes, an error, or nothing since the plugin panicked.
pub data Handled : Type 0 where
  replied : Bytes → Handled
  refused : Error → Handled
  crashed : Handled

module _ (wire : Wire) where
  abbrev pub returned : Error ⊎ Bytes → Handled
  returned (inl e) = refused e
  returned (inr raw) = replied raw

  -- `abiOKEnvelope`
  unfoldable pub ok_envelope : Answer → Handled
  ok_envelope a = elim (wire.write a) [
    | inl e ↦ refused e
    | inr raw ↦ returned (wire.write_envelope (ok raw))
  ]

  -- The bytes of an error envelope, nil if they cannot be written.
  unfoldable pub error_bytes : Envelope Bytes → Bytes
  error_bytes e = elim (wire.write_envelope e) [ inl _ ↦ [] | inr raw ↦ raw ]

  -- `abiOKEnvelopeWithError`
  unfoldable pub envelope_with_error : Error ⊎ Answer → Handled
  unfolding ok_envelope error_bytes error_envelope
  envelope_with_error (inl e) = replied (error_bytes (error_envelope (codes "plugin_error") e))
  envelope_with_error (inr a) = ok_envelope a

  -- The same on the outcome of a call that may panic.
  unfoldable pub envelope_of_outcome : {A : Type 0} → (A → Answer) → Outcome A → Handled
  unfolding envelope_with_error
  envelope_of_outcome wrap (done a) = envelope_with_error (inr (wrap a))
  envelope_of_outcome wrap (failed e) = envelope_with_error (inl e)
  envelope_of_outcome wrap panic = crashed

  -- The end of the case of ExecuteStream: the answer, and the calls of the host that follow.
  unfoldable pub stream_answer :
      (ℕ → Option Error) → Bytes → Outcome StreamResponse → Handled × List HostCall
  unfolding ok_envelope marshal_stream
  stream_answer emit_error stream_id (done r) =
      let (answer, calls) = marshal_stream emit_error stream_id r in
      (ok_envelope (streamed answer), calls)
  stream_answer emit_error stream_id (failed e) = (refused e, [])
  stream_answer emit_error stream_id panic = (crashed, [])

-- ===== src/Toys.antt =====
-- Small instances of the parameters, on which the examples run: a JSON library that knows one text,
-- a network library that reads every URL as HTTP, and clients with fixed answers.
use cpa_plugin_commandcode.Base.{
  Bytes, codes, true, false, none, some, [], ◌∷◌, ◌≡◌, refl, ◌∙◌, bytes_eq, bytes_eq-eq, inl, inr,
  pos,
}
use cpa_plugin_commandcode.Base.Trim.{trim_space}
use cpa_plugin_commandcode.Config.{ModelEntry, ApiKeyEntry, PluginConfig, zero_config, Yaml}
use cpa_plugin_commandcode.Json.{Json}
use cpa_plugin_commandcode.Pool.{Auth, plain_error, Net, Doer, host_doer, std_doer}
use cpa_plugin_commandcode.Stream.{read}
use cpa_plugin_commandcode.Stream.Frames.{starts, JsonLaws}
use cpa_plugin_commandcode.Translator.{get_string}
use cpa_plugin_commandcode.Translator.Rewrite.{SetModel}
use cpa_plugin_commandcode.Executor.Upstream.{SetStream}
use cpa_plugin_commandcode.Executor.{ExecutorRequest}
use cpa_plugin_commandcode.Executor.Run.{Reply, StreamReply, World}
use cpa_plugin_commandcode.Send.{Received, Network}
use cpa_plugin_commandcode.Abi.Wire.{Method, register, execute_stream_method, Wire}

-- The one valid text.
abbrev pub braces : Bytes
braces = codes "{}"

abbrev pub toy_json : Json
toy_json = record {
  json_valid = λ b. bytes_eq b braces;
  Result = Bytes;
  valid = λ b. bytes_eq b braces;
  get_bytes = λ b path. [];
  get = λ r path. [];
  exists = λ r. false;
  is_array = λ r. false;
  is_object = λ r. false;
  is_string = λ r. false;
  text = λ r. r;
  items = λ r. [];
  set_string = λ body path value. some braces;
  set_bool = λ body path value. some braces;
  unmarshal_error = λ b. none;
  unmarshal_message = λ b. none;
  unmarshal_string = λ b. none;
}

braces-starts : starts (trim_space braces) ≡ true
unfolding trim_space
braces-starts = refl

pub toy_json-JsonLaws : JsonLaws toy_json
toy_json-JsonLaws = record {
  set_valid = λ body path value updated h e. cc (e, bytes_eq_braces);
  valid_starts = λ body h. rw (bytes_eq-eq body braces h) braces-starts;
}
  where
    bytes_eq_braces : bytes_eq braces braces ≡ true
    bytes_eq_braces = unfold bytes_eq in refl

abbrev pub toy_net : Net
toy_net = record {
  Url = Bytes;
  Dialer = Bytes;
  parse = λ s. inr s;
  scheme = λ u. codes "HTTP";
  quote = λ s. s;
  dial = λ u. inr u;
}

-- Two keys, the second one behind a proxy, and a third that is switched off.
abbrev pub first_key : ApiKeyEntry
first_key = record { key = codes "k1"; weight = pos 3; proxy_url = []; disabled = false }

abbrev pub second_key : ApiKeyEntry
second_key = record {
  key = codes "k2";
  weight = pos 0;
  proxy_url = codes "http://p";
  disabled = false;
}

abbrev pub disabled_key : ApiKeyEntry
disabled_key = record { key = codes "k3"; weight = pos 9; proxy_url = []; disabled = true }

-- One model, with an alias.
abbrev pub one_model : ModelEntry
one_model = record { alias = codes "Flash"; name = codes "Deep/v4"; display_name = [] }

abbrev pub toy_config : PluginConfig
toy_config = record zero_config {
  models = one_model ∷ [];
  api_keys = first_key ∷ disabled_key ∷ second_key ∷ [];
}

abbrev pub toy_yaml : Yaml
toy_yaml = record {
  Node = Bytes;
  scalar = λ n. some n;
  decode = λ n. none;
  unmarshal = λ raw c. toy_config;
}

abbrev pub no_auth : Auth
no_auth = record { attributes = []; metadata = [] }

abbrev pub toy_request : ExecutorRequest
toy_request = record {
  model = codes "flash";
  payload = braces;
  auth = no_auth;
  metadata = [];
  host = true;
}

abbrev proxy_down : Doer toy_net → Reply
proxy_down host_doer = record { error = none; status = 200; headers = []; body = braces }
proxy_down (std_doer t) = record {
  error = some (plain_error (codes "down"));
  status = 0;
  headers = [];
  body = [];
}

abbrev proxy_down_stream : Doer toy_net → StreamReply
proxy_down_stream host_doer = record {
  error = none;
  status = 200;
  headers = [];
  chunks = read (codes "data: {}") ∷ [];
}
proxy_down_stream (std_doer t) = record {
  error = some (plain_error (codes "down"));
  status = 0;
  headers = [];
  chunks = [];
}

-- The host's client answers, and the proxy is down.
abbrev pub toy_world : World toy_net
toy_world = record {
  call = λ n d url headers body. proxy_down d;
  stream = λ n d url headers body. proxy_down_stream d;
  ended = λ n. false;
  draws = λ n. 7;
  path_key = codes "path";
  taken = λ n. true;
}

-- Every client answers that the key is not accepted.
abbrev pub refusing_world : World toy_net
refusing_world = record {
  call = λ n d url headers body. record { error = none; status = 401; headers = []; body = [] };
  stream = λ n d url headers body. record { error = none; status = 401; headers = []; chunks = [] };
  ended = λ n. false;
  draws = λ n. 7;
  path_key = codes "path";
  taken = λ n. true;
}

-- A JSON library whose bodies consist of the model that they name.
abbrev pub model_json : Json
model_json = record toy_json {
  json_valid = λ b. true;
  valid = λ b. true;
  get_bytes = λ b path. b;
  is_string = λ r. true;
  set_string = λ body path value. some value;
  set_bool = λ body path value. some body;
}

get_string-model_json : (b : Bytes) → get_string model_json b (codes "model") ≡ b
unfolding get_string
get_string-model_json [] = refl
get_string-model_json (x ∷ b) = refl

pub model_json-SetModel : SetModel model_json
model_json-SetModel = record {
  set_valid = λ body value updated good h. refl;
  get_set = λ body value updated good ascii h. get_string-model_json updated ∙ cc h;
}

pub model_json-SetStream : SetStream model_json
model_json-SetStream = record {
  stream_valid = λ body value updated good h. refl;
  get_stream = λ body value updated good h. cc h;
  get_usage = λ body value updated good h. cc h;
}

-- A network whose proxies answer with this response, and whose host cannot be reached.
abbrev pub toy_received : Received
toy_received = record {
  status = 500;
  headers = [];
  body = record { parts = codes "no" ∷ []; last = codes "pe"; fault = none };
}

abbrev pub toy_network : Network toy_net
toy_network = record {
  new_request = λ url. none;
  send = λ n t url headers body. inr toy_received;
  host_send = λ n url headers body. inl (plain_error (codes "no host"));
  host_stream = λ n url headers body. inl (plain_error (codes "no host"));
  taken = λ n. true;
}

-- Names of one letter register, the empty one is ExecuteStream, and others are a method.
abbrev pub toy_method : Method → Bytes → Method
toy_method m [] = execute_stream_method
toy_method m (x ∷ []) = register
toy_method m (x ∷ y ∷ name) = m

-- A wire with these names. Every request is the same, and answers cannot be told apart.
abbrev pub toy_wire : Method → Wire
toy_wire m = record {
  method_of = λ name. toy_method m name;
  read_lifecycle = λ raw. inr raw;
  read_static = λ raw. none;
  read_for_auth = λ raw. none;
  read_route = λ raw. inl (plain_error (codes "no route"));
  read_request = λ raw. inl (plain_error (codes "no request"));
  read_response = λ raw. inl (plain_error (codes "no response"));
  read_executor = λ raw. inr (toy_request, codes "s1");
  read_http = λ raw. inl (plain_error (codes "no request"));
  write = λ a. inr braces;
  write_envelope = λ e. inr braces;
}

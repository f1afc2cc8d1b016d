-- ===== src/Executor/Run.antt =====
-- `Execute`, `ExecuteStream` and `HttpRequest` of executor.go. The network is a parameter: what the
-- client of a member answers in each round.
use cpa_plugin_commandcode.Base.{
  ℕ, Bytes, codes, Bool, true, false, ◌&&◌, Option, none, some, List, [], ◌∷◌, ◌++◌, ◌⊎◌, inl, inr,
  is_empty, if◌then◌else◌,
}
use cpa_plugin_commandcode.Base.Trim.{trim_space}
use cpa_plugin_commandcode.Config.{ApiKeyEntry, PluginConfig}
use cpa_plugin_commandcode.Json.{Json}
use cpa_plugin_commandcode.Pool.{
  Auth, Error, plain_error, members, order, Net, Doer, host_doer, Clients, client_for,
}
use cpa_plugin_commandcode.Reasoning.{map_reasoning_body}
use cpa_plugin_commandcode.Stream.{OutChunk, Input, stream_framing, convert}
use cpa_plugin_commandcode.Executor.{
  Header, header_get, header_set, ExecutorRequest, endpoint, missing_key_msg, upstream_headers,
  read_error_body, Outcome, done, failed, panic, Attempt, status_error, build_upstream_body,
  failover,
}

-- The results of `do` and `doStream`; a stream's channel is the list of what it delivers.
pub record Reply : Type 0 where
  pub error : Option Error
  pub status : ℕ
  pub headers : Header
  pub body : Bytes

pub record StreamReply : Type 0 where
  pub error : Option Error
  pub status : ℕ
  pub headers : Header
  pub chunks : List Input

-- pluginapi.ExecutorResponse, ExecutorStreamResponse and ExecutorHTTPResponse.
pub record Response : Type 0 where
  pub payload : Bytes
  pub headers : Header

pub record StreamResponse : Type 0 where
  pub headers : Header
  pub chunks : List OutChunk

pub record HttpResponse : Type 0 where
  pub status : ℕ
  pub headers : Header
  pub body : Bytes

-- pluginapi.ExecutorHTTPRequest
pub record HttpRequest : Type 0 where
  pub url : Bytes
  pub headers : Header
  pub body : Bytes
  pub auth : Auth
  pub host : Bool

-- What surrounds a call: the answers of the clients in each round, by URL, headers and body; whether
-- the context has ended behind a round; the values of the generator; the key under which the host
-- passes the request's path; and which sends on the output channel the consumer takes.
pub record World (net : Net) : Type 0 where
  pub call : ℕ → Doer net → Bytes → Header → Bytes → Reply
  pub stream : ℕ → Doer net → Bytes → Header → Bytes → StreamReply
  pub ended : ℕ → Bool
  pub draws : ℕ → ℕ
  pub path_key : Bytes
  pub taken : ℕ → Bool

module _ (json : Json) (net : Net) (world : World net) (cfg : Option PluginConfig) where
  -- One round of `Execute`.
  unfoldable pub execute_attempt : ExecutorRequest → ℕ → ApiKeyEntry → Doer net → Attempt Response
  execute_attempt req n m d =
      let body = build_upstream_body json cfg req.model req.payload false in
      let r = world.call n d (endpoint cfg) (upstream_headers (trim_space m.key) false) body in
      record {
        error = r.error;
        status = r.status;
        error_body = r.body;
        response = record { payload = (map_reasoning_body json r.body).0; headers = r.headers };
      }

  -- `Execute`
  unfoldable pub execute : ExecutorRequest → Clients net → Outcome Response × Clients net
  unfolding failover execute_attempt
  execute req clients =
      let ms = members cfg req.auth in
      if is_empty ms
      then (failed (status_error json 401 missing_key_msg []), clients)
      else elim (order world.draws ms) [
        | none ↦ (panic, clients)
        | some out ↦
            failover json net ms req.host (execute_attempt req) world.ended 0 out clients none
      ]

  -- One round of `ExecuteStream`.
  unfoldable pub stream_attempt :
      ExecutorRequest → ℕ → ApiKeyEntry → Doer net → Attempt StreamResponse
  stream_attempt req n m d =
      let framing = stream_framing world.path_key req.metadata in
      let body = build_upstream_body json cfg req.model req.payload true in
      let r = world.stream n d (endpoint cfg) (upstream_headers (trim_space m.key) true) body in
      record {
        error = r.error;
        status = r.status;
        error_body = read_error_body r.chunks [];
        response = record {
          headers = r.headers;
          chunks = convert json framing world.taken 0 r.chunks [];
        };
      }

  -- `ExecuteStream`
  unfoldable pub execute_stream :
      ExecutorRequest → Clients net → Outcome StreamResponse × Clients net
  unfolding failover stream_attempt
  execute_stream req clients =
      let ms = members cfg req.auth in
      if is_empty ms
      then (failed (status_error json 401 missing_key_msg []), clients)
      else elim (order world.draws ms) [
        | none ↦ (panic, clients)
        | some out ↦
            failover json net ms req.host (stream_attempt req) world.ended 0 out clients none
      ]

  -- The headers that `HttpRequest` sends, for the members of the pool.
  unfoldable pub http_headers : List ApiKeyEntry → Header → Header
  http_headers [] headers = headers
  http_headers (m ∷ ms) headers =
      if is_empty (header_get (codes "Authorization") headers)
      then header_set (codes "Authorization") (codes "Bearer " ++ trim_space m.key) headers
      else headers

  -- The client that `HttpRequest` uses: that of the first member, or the host's.
  unfoldable pub http_client :
      List ApiKeyEntry → Bool → Clients net → (Error ⊎ Doer net) × Clients net
  unfolding client_for
  http_client [] host clients = (
    (if host
        then inr host_doer
        else inl (plain_error (codes "commandcode executor: host HTTP client is required"))),
    clients,
  )
  http_client (m ∷ ms) host clients = client_for net 0 m host clients

  -- `HttpRequest`
  unfoldable pub http_request : HttpRequest → Clients net → Outcome HttpResponse × Clients net
  unfolding http_headers http_client
  http_request req clients =
      let url = trim_space req.url in
      let ms = members cfg req.auth in
      let headers = http_headers ms req.headers in
      let (d, clients') = http_client ms req.host clients in
      let sent : Outcome HttpResponse × Clients net = elim d [
        | inl e ↦ (failed e, clients')
        | inr d ↦
            let r = world.call 0 d url headers req.body in
            elim r.error [
              | some e ↦ (failed e, clients')
              | none ↦ (
                done (record { status = r.status; headers = r.headers; body = r.body }),
                clients',
              )
            ]
      ] in
      if is_empty url
      then (failed (plain_error (codes "commandcode executor: request URL is required")), clients)
      else if is_empty ms && is_empty (header_get (codes "Authorization") req.headers)
      then (failed (status_error json 401 missing_key_msg []), clients)
      else sent

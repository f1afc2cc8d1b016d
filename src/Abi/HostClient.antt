-- ===== src/Abi/HostClient.antt =====
-- abiHostHTTPClient of cmd/commandcode/abi.go: the host's HTTP client, by calls of the host.
use cpa_plugin_commandcode.Base.{
  ℕ, zero, suc, Bytes, Bool, false, Option, some, List, [], ◌∷◌, ◌⊎◌, inl, inr, ◌≡◌, ap, ◌∙◌,
}
use cpa_plugin_commandcode.Pool.{Error, Net}
use cpa_plugin_commandcode.Stream.{Input}
use cpa_plugin_commandcode.Executor.{Header}
use cpa_plugin_commandcode.Send.{Network}
use cpa_plugin_commandcode.Abi.{Poll, refused, answer}
use cpa_plugin_commandcode.Abi.Calls.{HostApi, HostEnvelope, call_host, HostStream, do_stream}
use cpa_plugin_commandcode.Abi.Answers.{IsAnswer, call_host_iff}

-- abiHostHTTPStreamReadResponse
pub record StreamRead : Type 0 where
  pub payload : Bytes
  pub error : Bytes
  pub finished : Bool

-- The names of the host's methods, which are not in the sources, and encoding/json on what the client
-- sends and gets: an envelope, a request with the ID of the callback, its URL, headers and body, the
-- request of a read by the ID of its stream, and the results of the three calls.
pub record HostWire : Type 0 where
  pub do_method : Bytes
  pub do_stream_method : Bytes
  pub read_method : Bytes
  pub envelope : Bytes → Error ⊎ HostEnvelope
  pub write_request : Bytes → Bytes → Header → Bytes → Error ⊎ Bytes
  pub write_read : Bytes → Error ⊎ Bytes
  pub reply : Bytes → Error ⊎ (ℕ × Header × Bytes)
  pub stream : Bytes → Error ⊎ HostStream
  pub read_reply : Bytes → Error ⊎ StreamRead

abbrev pub no_host_stream : HostStream
no_host_stream = record { status = 0; headers = []; stream_id = []; chunks = [] }

abbrev pub no_read : StreamRead
no_read = record { payload = []; error = []; finished = false }

-- A round of the loop of `readHostHTTPStream`, whose context does not end, by the result of its call.
unfoldable pub poll_of : Error ⊎ StreamRead → Poll
poll_of (inl e) = refused e
poll_of (inr r) = answer r.payload r.error r.finished

module _ (w : HostWire) where
  -- `Do`
  unfoldable pub http_do :
      Option HostApi → Bytes → Bytes → Header → Bytes → Error ⊎ (ℕ × Header × Bytes)
  unfolding call_host
  http_do host callback url headers body =
      (call_host w.envelope w.reply (0, [], []) host w.do_method
        (w.write_request callback url headers body)).0

  -- The call of `DoStream`.
  unfoldable pub open_stream : Option HostApi → Bytes → Bytes → Header → Bytes → Error ⊎ HostStream
  unfolding call_host
  open_stream host callback url headers body =
      (call_host w.envelope w.stream no_host_stream host w.do_stream_method
        (w.write_request callback url headers body)).0

  -- The calls of `readHostHTTPStream` for a stream, each with the host that it meets, from one on.
  unfoldable pub read_calls : (ℕ → Option HostApi) → ℕ → ℕ → Bytes → List Poll
  unfolding call_host poll_of
  read_calls hosts k zero id = []
  read_calls hosts k (suc count) id =
      let result =
        (call_host w.envelope w.read_reply no_read (hosts k) w.read_method (w.write_read id)).0 in
      poll_of result ∷ read_calls hosts (suc k) count id

  -- `DoStream`, with the first reads of the stream.
  unfoldable pub http_do_stream :
      Option HostApi
      → (ℕ → Option HostApi)
      → ℕ
      → Bytes
      → Bytes
      → Header
      → Bytes
      → Error ⊎ (ℕ × Header × List Input)
  unfolding open_stream do_stream read_calls
  http_do_stream host hosts count callback url headers body =
      do_stream (read_calls hosts 0 count) (open_stream host callback url headers body)

  -- A network whose host client is this one: the host that each round and each read of it meets, the
  -- number of reads that the host answers, and the ID of the callback.
  abbrev pub with_host :
      {net : Net}
      → Network net
      → (ℕ → Option HostApi)
      → (ℕ → ℕ → Option HostApi)
      → ℕ
      → Bytes
      → Network net
  with_host network host hosts count callback = record network {
    host_send = λ n url headers body. http_do (host n) callback url headers body;
    host_stream =
        λ n url headers body. http_do_stream (host n) (hosts n) count callback url headers body;
  }

  -- An answer of the host that is a stream is the one that `DoStream` goes on with.
  pub http_do_stream-IsAnswer :
      (api : HostApi) (hosts : ℕ → Option HostApi) (count : ℕ) (callback url : Bytes)
      (headers : Header) (body request : Bytes) (s : HostStream)
      → w.write_request callback url headers body ≡ inr request
      → let (code, buffer) = api w.do_stream_method request in
        IsAnswer w.envelope w.stream no_host_stream code buffer s
        → http_do_stream (some api) hosts count callback url headers body
          ≡ do_stream (read_calls hosts 0 count) (inr s)
  unfolding http_do_stream open_stream
  http_do_stream-IsAnswer api hosts count callback url headers body request s written answered =
      ap (do_stream (read_calls hosts 0 count)) (
        ap
          (λ (r : Error ⊎ Bytes).
            (call_host w.envelope w.stream no_host_stream (some api) w.do_stream_method r).0)
          written
        ∙ (call_host_iff w.envelope w.stream no_host_stream api w.do_stream_method request s).1
            answered)

-- ===== src/Abi/Path.antt =====
-- The whole way of a stream, from the upstream's bytes to what the host is sent.
use cpa_plugin_commandcode.Base.{
  ℕ, Bytes, Bool, true, false, ◌||◌, Option, none, some, List, [], ◌++◌, flatten, inr, is_empty,
  ltb, leb, ◌≡◌, refl, ap, ◌∙◌,
}
use mathlib.Core.Path.{fun_ext}
use cpa_plugin_commandcode.Base.Trim.{trim_space}
use cpa_plugin_commandcode.Config.{ApiKeyEntry, PluginConfig}
use cpa_plugin_commandcode.Json.{Json}
use cpa_plugin_commandcode.Pool.{Net, Transport, Doer, host_doer, std_doer}
use cpa_plugin_commandcode.Stream.{Framing, Input, split_lines, stream_framing, convert}
use cpa_plugin_commandcode.Stream.Chunks.{Fits}
use cpa_plugin_commandcode.Stream.Whole.{split_newlines}
use cpa_plugin_commandcode.Executor.{
  Header, ExecutorRequest, endpoint, upstream_headers, build_upstream_body,
}
use cpa_plugin_commandcode.Executor.Run.{StreamResponse, StreamReply, World, stream_attempt}
use cpa_plugin_commandcode.Send.{
  Received, Network, std_do_stream, std_stream_reply, host_do_stream, doer_do_stream, with_network,
  send_body,
}
use cpa_plugin_commandcode.Send.Bodies.{convert-send_body}
use cpa_plugin_commandcode.Abi.{Poll}
use cpa_plugin_commandcode.Abi.HostStream.{text_of, convert-read_host_stream}
use cpa_plugin_commandcode.Abi.Calls.{HostStream, host_chunks, do_stream, marshal_stream}
use cpa_plugin_commandcode.Abi.Delivery.{
  delivery, framed, sent_of, marshal_stream-ended, marshal_stream-sent_of,
}

module _ (net : Net) (network : Network net) (n : ℕ) (url : Bytes) (headers : Header)
    (body : Bytes) where
  pub doer_do_stream-std :
      (t : Transport net) (r : Received)
      → ((k : ℕ) → network.taken k ≡ true)
      → network.new_request url ≡ none
      → network.send n t url headers body ≡ inr r
      → (ltb r.status 200 || leb 300 r.status) ≡ false
      → (doer_do_stream net network n (std_doer t) url headers body).chunks
        ≡ send_body (λ k. true) 0 r.body.parts r.body.last r.body.fault
  unfolding doer_do_stream std_do_stream std_stream_reply
  doer_do_stream-std t r taken built answered good =
      rw (doer_do_stream, std_do_stream, built)
        (rw (answered, std_stream_reply)
          (rw good (
            ap (λ (taken : ℕ → Bool). send_body taken 0 r.body.parts r.body.last r.body.fault)
              (fun_ext taken))))

  pub doer_do_stream-host :
      (s : HostStream) (polls : Bytes → List Poll)
      → network.host_stream n url headers body ≡ do_stream polls (inr s)
      → (doer_do_stream net network n host_doer url headers body).chunks ≡ host_chunks polls s
  unfolding doer_do_stream host_do_stream do_stream
  doer_do_stream-host s polls answered = rw (doer_do_stream, host_do_stream, answered) refl

module _ (json : Json) where
  module _ (net : Net) (network : Network net) (cfg : Option PluginConfig) (world : World net)
      (all : (k : ℕ) → world.taken k ≡ true) (req : ExecutorRequest) (n : ℕ) (m : ApiKeyEntry) where
    -- One round of `ExecuteStream` on this network.
    abbrev pub relayed : Doer net → StreamResponse
    relayed d = (stream_attempt json net (with_network net network world) cfg req n m d).response

    abbrev pub framing_of : Framing
    framing_of = stream_framing world.path_key req.metadata

    -- The reply that a round has.
    abbrev pub reply : Doer net → StreamReply
    reply d =
        doer_do_stream net network n d (endpoint cfg) (upstream_headers (trim_space m.key) true)
          (build_upstream_body json cfg req.model req.payload true)

    pub chunks-relayed :
        (d : Doer net)
        → (relayed d).chunks ≡ convert json framing_of (λ k. true) 0 (reply d).chunks []
    unfolding stream_attempt
    chunks-relayed d =
        ap (λ (taken : ℕ → Bool). convert json framing_of taken 0 (reply d).chunks []) (fun_ext all)

    -- The request of the round.
    abbrev pub sent_headers : Header
    sent_headers = upstream_headers (trim_space m.key) true

    abbrev pub sent_body : Bytes
    sent_body = build_upstream_body json cfg req.model req.payload true

    -- A stream that the own client of a member reads: however its body is cut into reads, the host is
    -- sent the framed lines of the body, one by one, and then told that the stream is closed; if the
    -- body breaks off with an error, it is sent the complete lines and told the error. The upstream
    -- must answer with a success, the context must not end, no emit may fail, and no line may be
    -- longer than 4 MiB.
    pub marshal_stream-std_doer :
        (t : Transport net) (r : Received) (stream_id : Bytes)
        → ((k : ℕ) → network.taken k ≡ true)
        → network.new_request (endpoint cfg) ≡ none
        → network.send n t (endpoint cfg) sent_headers sent_body ≡ inr r
        → (ltb r.status 200 || leb 300 r.status) ≡ false
        → Fits json framing_of (split_lines (flatten r.body.parts ++ r.body.last))
        → is_empty stream_id ≡ false
        → (marshal_stream (λ k. none) stream_id (relayed (std_doer t))).1
          ≡ delivery (sent_of json framing_of r.body.fault (flatten r.body.parts ++ r.body.last))
    marshal_stream-std_doer t r stream_id taken built answered good fits named =
        let text = flatten r.body.parts ++ r.body.last in
        marshal_stream-sent_of json framing_of r.body.fault text stream_id (relayed (std_doer t))
          named
          (chunks-relayed (std_doer t)
            ∙ ap (λ (l : List Input). convert json framing_of (λ k. true) 0 l [])
                (doer_do_stream-std net network n (endpoint cfg) sent_headers sent_body t r taken
                  built answered good)
            ∙ convert-send_body json framing_of r.body fits)

    -- A stream that the host's own client reads to its end: however the answers of the host cut the
    -- text, the host is sent its framed lines, one by one, and then told that the stream is closed. The
    -- context must not end, no emit may fail, and no line may be longer than 4 MiB.
    pub marshal_stream-host_doer :
        (s : HostStream) (polls : Bytes → List Poll) (t stream_id : Bytes)
        → network.host_stream n (endpoint cfg) sent_headers sent_body ≡ do_stream polls (inr s)
        → is_empty s.stream_id ≡ false
        → text_of (polls s.stream_id) ≡ some t
        → Fits json framing_of (split_lines t)
        → is_empty stream_id ≡ false
        → (marshal_stream (λ k. none) stream_id (relayed host_doer)).1
          ≡ delivery (framed json framing_of (split_newlines t), [])
    unfolding host_chunks
    marshal_stream-host_doer s polls t stream_id answered identified ended fits named =
        marshal_stream-ended json framing_of t stream_id (relayed host_doer) named (
          chunks-relayed host_doer
          ∙ ap (λ (l : List Input). convert json framing_of (λ k. true) 0 l [])
              (doer_do_stream-host net network n (endpoint cfg) sent_headers sent_body s polls
                  answered
                ∙ rw identified refl)
          ∙ convert-read_host_stream json framing_of (polls s.stream_id) t ended fits)

-- ===== src/Send.antt =====
-- How a request reaches the network: `stdDoer` and `hostDoer` of pool.go, with the readers of
-- iobuf.go. The HTTP clients are parameters.
pub mod Bodies
mod Tests
use cpa_plugin_commandcode.Base.{
  ℕ, suc, Bytes, codes, Bool, true, false, ◌||◌, Option, none, some, List, [], ◌∷◌, ◌++◌, ◌⊎◌, inl,
  inr, is_empty, if◌then◌else◌, ltb, leb, bytes_eq, flatten,
}
use cpa_plugin_commandcode.Pool.{Error, Net, Transport, Doer, host_doer, std_doer}
use cpa_plugin_commandcode.Stream.{Input, read, broken}
use cpa_plugin_commandcode.Executor.{Header}
use cpa_plugin_commandcode.Executor.Run.{Reply, StreamReply, World}

-- An http.Response body, by what its reads give: reads without an error, and the last one, whose
-- error is io.EOF (`none`) or another.
pub record Body : Type 0 where
  pub parts : List Bytes
  pub last : Bytes
  pub fault : Option Error

-- An http.Response.
pub record Received : Type 0 where
  pub status : ℕ
  pub headers : Header
  pub body : Body

-- net/http and the host's client, which the sources only call: the error of building a request for a
-- URL, the answer to a request that is sent in a round, and which sends on the channel of a stream
-- the consumer takes before the context ends.
pub record Network (net : Net) : Type 0 where
  pub new_request : Bytes → Option Error
  pub send : ℕ → Transport net → Bytes → Header → Bytes → Error ⊎ Received
  pub host_send : ℕ → Bytes → Header → Bytes → Error ⊎ (ℕ × Header × Bytes)
  pub host_stream : ℕ → Bytes → Header → Bytes → Error ⊎ (ℕ × Header × List Input)
  pub taken : ℕ → Bool

-- `readAll`: io.ReadAll does not report the end of the body as an error.
unfoldable pub read_all : Body → Bytes × Option Error
read_all b = (flatten b.parts ++ b.last, b.fault)

module _ (taken : ℕ → Bool) where
  -- The error at the end of the loop of `doStream`, which compares its text.
  unfoldable pub send_fault : ℕ → Option Error → List Input
  send_fault n none = []
  send_fault n (some e) =
      if bytes_eq e.text (codes "EOF") then [] else if taken n then broken [] e ∷ [] else []

  -- The loop of `doStream`, from the number of sends and the reads that are left.
  unfoldable pub send_body : ℕ → List Bytes → Bytes → Option Error → List Input
  unfolding send_fault
  send_body n [] last fault =
      if is_empty last
      then send_fault n fault
      else if taken n
      then read last ∷ send_fault (suc n) fault
      else []
  send_body n (p ∷ parts) last fault =
      let skipped = send_body n parts last fault in
      let sent = read p ∷ send_body (suc n) parts last fault in
      if is_empty p then skipped else if taken n then sent else []

-- A reply that is an error, with no response.
abbrev pub no_reply : Error → Reply
no_reply e = record { error = some e; status = 0; headers = []; body = [] }

abbrev pub no_stream : Error → StreamReply
no_stream e = record { error = some e; status = 0; headers = []; chunks = [] }

-- The body of an answer with an error status, as one chunk.
abbrev pub one_chunk : Bytes → List Input
one_chunk [] = []
one_chunk (x ∷ s) = read (x ∷ s) ∷ []

module _ (net : Net) (network : Network net) where
  -- `stdDoer.do`, behind the client's answer.
  unfoldable pub std_reply : Error ⊎ Received → Reply
  unfolding read_all
  std_reply (inl e) = no_reply e
  std_reply (inr r) =
      let (bytes, fault) = read_all r.body in
      elim fault [
        | some e ↦ record { error = some e; status = r.status; headers = r.headers; body = [] }
        | none ↦ record { error = none; status = r.status; headers = r.headers; body = bytes }
      ]

  -- `stdDoer.do`
  unfoldable pub std_do : ℕ → Transport net → Bytes → Header → Bytes → Reply
  unfolding std_reply
  std_do n t url headers body = elim (network.new_request url) [
    | some e ↦ no_reply e
    | none ↦ std_reply (network.send n t url headers body)
  ]

  -- `stdDoer.doStream`, behind the client's answer.
  unfoldable pub std_stream_reply : Error ⊎ Received → StreamReply
  unfolding read_all send_body
  std_stream_reply (inl e) = no_stream e
  std_stream_reply (inr r) =
      if ltb r.status 200 || leb 300 r.status
      then record {
        error = none;
        status = r.status;
        headers = r.headers;
        chunks = one_chunk (read_all r.body).0;
      }
      else record {
        error = none;
        status = r.status;
        headers = r.headers;
        chunks = send_body network.taken 0 r.body.parts r.body.last r.body.fault;
      }

  -- `stdDoer.doStream`
  unfoldable pub std_do_stream : ℕ → Transport net → Bytes → Header → Bytes → StreamReply
  unfolding std_stream_reply
  std_do_stream n t url headers body = elim (network.new_request url) [
    | some e ↦ no_stream e
    | none ↦ std_stream_reply (network.send n t url headers body)
  ]

  -- `hostDoer.do`
  unfoldable pub host_do : ℕ → Bytes → Header → Bytes → Reply
  host_do n url headers body = elim (network.host_send n url headers body) [
    | inl e ↦ no_reply e
    | inr (status, answered, bytes) ↦ record {
      error = none;
      status = status;
      headers = answered;
      body = bytes;
    }
  ]

  -- `hostDoer.doStream`
  unfoldable pub host_do_stream : ℕ → Bytes → Header → Bytes → StreamReply
  host_do_stream n url headers body = elim (network.host_stream n url headers body) [
    | inl e ↦ no_stream e
    | inr (status, answered, chunks) ↦ record {
      error = none;
      status = status;
      headers = answered;
      chunks = chunks;
    }
  ]

  -- The two methods of a `doer`.
  unfoldable pub doer_do : ℕ → Doer net → Bytes → Header → Bytes → Reply
  unfolding host_do std_do
  doer_do n host_doer url headers body = host_do n url headers body
  doer_do n (std_doer t) url headers body = std_do n t url headers body

  unfoldable pub doer_do_stream : ℕ → Doer net → Bytes → Header → Bytes → StreamReply
  unfolding host_do_stream std_do_stream
  doer_do_stream n host_doer url headers body = host_do_stream n url headers body
  doer_do_stream n (std_doer t) url headers body = std_do_stream n t url headers body

  -- A world whose clients are these, with what else surrounds a call.
  abbrev pub with_network : World net → World net
  with_network world = record world { call = doer_do; stream = doer_do_stream }

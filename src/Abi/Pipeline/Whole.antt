-- ===== src/Abi/Pipeline/Whole.antt =====
-- The whole way of a stream through its goroutines, from the upstream's bytes to the calls of the host
-- in cmd/commandcode/abi.go, whatever the order of their steps.
use cpa_plugin_commandcode.Base.{
  ℕ, suc, ◌+◌, ◌*◌, ◌≤◌, Bytes, codes, Bool, true, false, ◌||◌, Option, none, some, List, [], ◌∷◌,
  ◌++◌, map, length, flatten, All, inr, inl, is_empty, ltb, leb, bytes_eq, ◌≡◌, refl, sym, ap, ◌∙◌,
  Bool-cases,
}
use mathlib.Core.Path.{subst}
use cpa_plugin_commandcode.Config.{ApiKeyEntry, PluginConfig}
use cpa_plugin_commandcode.Json.{Json}
use cpa_plugin_commandcode.Pool.{Error, Net, Transport, Doer, host_doer, std_doer}
use cpa_plugin_commandcode.Stream.{Framing, Input, split_lines, convert}
use cpa_plugin_commandcode.Stream.Chunks.{Fits}
use cpa_plugin_commandcode.Stream.Whole.{split_newlines}
use cpa_plugin_commandcode.Executor.{Header, ExecutorRequest, endpoint}
use cpa_plugin_commandcode.Executor.Run.{World}
use cpa_plugin_commandcode.Send.{Received, Network, send_fault, send_body}
use cpa_plugin_commandcode.Abi.{
  Poll, stopped, refused, answer, read_host_stream, HostCall, next, pump_stream,
}
use cpa_plugin_commandcode.Abi.HostStream.{text_of}
use cpa_plugin_commandcode.Abi.Calls.{HostStream, host_chunks, do_stream, marshal_stream}
use cpa_plugin_commandcode.Abi.Delivery.{delivery, framed, sent_of}
use cpa_plugin_commandcode.Abi.Path.{
  relayed, framing_of, reply, sent_headers, sent_body, chunks-relayed, doer_do_stream-std,
  doer_do_stream-host, marshal_stream-std_doer, marshal_stream-host_doer,
}
use cpa_plugin_commandcode.Abi.Pipeline.{Pipe, Goroutine, interleave, start_pipe}
use cpa_plugin_commandcode.Abi.Pipeline.Refines.{calls_of}
use cpa_plugin_commandcode.Abi.Pipeline.Ends.{EndsWell}
use cpa_plugin_commandcode.Abi.Pipeline.Progress.{IsDone}
use cpa_plugin_commandcode.Abi.Pipeline.Fair.{IsRound, interleave-IsDone}

-- Both readers send no error but at the end.
send_fault-EndsWell :
    (taken : ℕ → Bool) (n : ℕ) (e : Option Error) → EndsWell (send_fault taken n e)
unfolding send_fault
send_fault-EndsWell taken n none = tt
send_fault-EndsWell taken n (some e) = elim (Bool-cases (bytes_eq e.text (codes "EOF"))) [
  | inl eof ↦ rw eof tt
  | inr other ↦ elim (Bool-cases (taken n)) [
    | inl sent ↦ rw (other, sent) refl
    | inr lost ↦ rw (other, lost) tt
  ]
]

send_body-EndsWell :
    (taken : ℕ → Bool) (n : ℕ) (parts : List Bytes) (last : Bytes) (fault : Option Error)
    → EndsWell (send_body taken n parts last fault)
unfolding send_body
send_body-EndsWell taken n [] [] fault = send_fault-EndsWell taken n fault
send_body-EndsWell taken n [] (x ∷ last) fault = elim (Bool-cases (taken n)) [
  | inl sent ↦ rw sent (send_fault-EndsWell taken (suc n) fault)
  | inr lost ↦ rw lost tt
]
send_body-EndsWell taken n ([] ∷ parts) last fault = send_body-EndsWell taken n parts last fault
send_body-EndsWell taken n ((x ∷ p) ∷ parts) last fault = elim (Bool-cases (taken n)) [
  | inl sent ↦ rw sent (send_body-EndsWell taken (suc n) parts last fault)
  | inr lost ↦ rw lost tt
]

read_host_stream-EndsWell : (polls : List Poll) → EndsWell (read_host_stream polls).0
unfolding read_host_stream
read_host_stream-EndsWell [] = tt
read_host_stream-EndsWell (stopped ∷ polls) = tt
read_host_stream-EndsWell (refused e ∷ polls) = refl
read_host_stream-EndsWell (answer [] [] true ∷ polls) = tt
read_host_stream-EndsWell (answer [] [] false ∷ polls) = read_host_stream-EndsWell polls
read_host_stream-EndsWell (answer (x ∷ p) [] true ∷ polls) = tt
read_host_stream-EndsWell (answer (x ∷ p) [] false ∷ polls) = read_host_stream-EndsWell polls
read_host_stream-EndsWell (answer p (x ∷ e) finished ∷ polls) = refl

module _ (json : Json) (net : Net) (network : Network net) (cfg : Option PluginConfig)
    (world : World net) (all : (k : ℕ) → world.taken k ≡ true) (req : ExecutorRequest) (n : ℕ)
    (m : ApiKeyEntry) (rounds : List (List Goroutine)) (turns : All IsRound rounds) where
  abbrev pub framing : Framing
  framing = framing_of json net network cfg world all req n m

  abbrev pub request_headers : Header
  request_headers = sent_headers json net network cfg world all req n m

  abbrev pub request_body : Bytes
  request_body = sent_body json net network cfg world all req n m

  -- What the reader of a client sends.
  abbrev pub inputs_of : Doer net → List Input
  inputs_of d = (reply json net network cfg world all req n m d).chunks

  -- Two rounds for each chunk and each input, and four more.
  abbrev pub rounds_needed : List Input → ℕ
  rounds_needed inputs =
      2 * length (convert json framing (λ k. true) 0 inputs []) + 2 * length inputs + 4

  -- The goroutines of the stream of a round, behind the turns.
  abbrev pub carried : Doer net → Pipe
  carried d = interleave json framing (λ k. none) (flatten rounds) (start_pipe (inputs_of d))

  carried-IsDone :
      (d : Doer net) (calls : List HostCall)
      → EndsWell (inputs_of d)
      → rounds_needed (inputs_of d) ≤ length rounds
      → (marshal_stream
          (λ k. none)
          (codes "s")
          (relayed json net network cfg world all req n m d)).1
        ≡ calls
      → IsDone (carried d) × (calls_of (carried d) ≡ calls)
  unfolding marshal_stream
  carried-IsDone d calls ends enough same =
      let (done, made) =
        interleave-IsDone json framing (λ k. none) (λ k. refl) (inputs_of d) rounds ends turns
          enough in
      (
        done,
        made
            ∙ ap (λ l. pump_stream (λ k. none) 0 (map next l))
                (sym (chunks-relayed json net network cfg world all req n m d))
            ∙ same,
      )

  -- A stream that the own client of a member reads: however its body is cut into reads and whatever
  -- the order of the steps, if each goroutine gets a turn often enough, all have returned and the host
  -- has been sent the framed lines of the body, one by one, and then told that the stream is closed; if
  -- the body breaks off with an error, it has been sent the complete lines and told the error. The
  -- upstream must answer with a success, the context must not end, no emit may fail, and no line may be
  -- longer than 4 MiB.
  pub interleave-std_doer :
      (t : Transport net) (r : Received)
      → ((k : ℕ) → network.taken k ≡ true)
      → network.new_request (endpoint cfg) ≡ none
      → network.send n t (endpoint cfg) request_headers request_body ≡ inr r
      → (ltb r.status 200 || leb 300 r.status) ≡ false
      → Fits json framing (split_lines (flatten r.body.parts ++ r.body.last))
      → rounds_needed (inputs_of (std_doer t)) ≤ length rounds
      → IsDone (carried (std_doer t))
        × (calls_of (carried (std_doer t))
            ≡ delivery (sent_of json framing r.body.fault (flatten r.body.parts ++ r.body.last)))
  interleave-std_doer t r taken built answered good fits enough =
      carried-IsDone (std_doer t) _
        (subst EndsWell
          (sym (
            doer_do_stream-std net network n (endpoint cfg) request_headers request_body t r taken
              built answered good))
          (send_body-EndsWell (λ k. true) 0 r.body.parts r.body.last r.body.fault))
        enough
        (marshal_stream-std_doer json net network cfg world all req n m t r (codes "s") taken built
          answered good fits refl)

  -- A stream that the host's own client reads to its end: however the answers of the host cut the
  -- text and whatever the order of the steps, if each goroutine gets a turn often enough, all have
  -- returned and the host has been sent the framed lines of the text, one by one, and then told that
  -- the stream is closed. The context must not end, no emit may fail, and no line may be longer than
  -- 4 MiB.
  pub interleave-host_doer :
      (s : HostStream) (polls : Bytes → List Poll) (t : Bytes)
      → network.host_stream n (endpoint cfg) request_headers request_body ≡ do_stream polls (inr s)
      → is_empty s.stream_id ≡ false
      → text_of (polls s.stream_id) ≡ some t
      → Fits json framing (split_lines t)
      → rounds_needed (inputs_of host_doer) ≤ length rounds
      → IsDone (carried host_doer)
        × (calls_of (carried host_doer) ≡ delivery (framed json framing (split_newlines t), []))
  unfolding host_chunks
  interleave-host_doer s polls t answered identified ended fits enough =
      let sent : inputs_of host_doer ≡ (read_host_stream (polls s.stream_id)).0 =
        doer_do_stream-host net network n (endpoint cfg) request_headers request_body s polls
          answered
        ∙ rw identified refl in
      carried-IsDone host_doer _
        (subst EndsWell (sym sent) (read_host_stream-EndsWell (polls s.stream_id))) enough
        (marshal_stream-host_doer json net network cfg world all req n m s polls t (codes "s")
          answered identified ended fits refl)

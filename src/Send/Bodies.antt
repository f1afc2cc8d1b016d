-- ===== src/Send/Bodies.antt =====
-- What a response body becomes, for both methods of `stdDoer`.
use cpa_plugin_commandcode.Base.{
  ℕ, suc, ◌^◌, Bytes, codes, Bool, true, ◌||◌, Option, none, some, List, [], ◌∷◌, ◌++◌, map, inl,
  inr, if◌then◌else◌, ltb, leb, bytes_eq, flatten, take, append_assoc, append-nil, ◌≡◌, refl, ap,
  ◌∙◌, Bool-cases,
}
use cpa_plugin_commandcode.Json.{Json}
use cpa_plugin_commandcode.Pool.{Error, Net}
use cpa_plugin_commandcode.Stream.{
  Framing, OutChunk, failure, Input, read, broken, split_lines, convert,
}
use cpa_plugin_commandcode.Stream.Chunks.{Fits, frame_of, frames_of, deliver, convert-deliver}
use cpa_plugin_commandcode.Stream.Delivery.{convert-reads}
use cpa_plugin_commandcode.Executor.{read_error_body}
use cpa_plugin_commandcode.Executor.ErrorBody.{upstream_text, read_error_body-upstream_text}
use cpa_plugin_commandcode.Send.{
  Body, Received, Network, read_all, send_fault, send_body, one_chunk, std_reply, std_stream_reply,
}

-- Every send on the channel is taken.
abbrev pub all_taken : ℕ → Bool
all_taken n = true

-- What a fault adds to the chunks: nothing at the end of the body.
abbrev pub fault_chunks : Option Error → List Input
fault_chunks none = []
fault_chunks (some e) = if bytes_eq e.text (codes "EOF") then [] else broken [] e ∷ []

-- The chunks are reads whose text is `t`, and what the fault adds.
abbrev pub Holds : Bytes → Option Error → List Input → Type 0
Holds t fault chunks =
    (cs : List Bytes) × (chunks ≡ map read cs ++ fault_chunks fault) × (flatten cs ≡ t)

Holds-cons :
    (p t : Bytes) (fault : Option Error) (chunks : List Input)
    → Holds t fault chunks
    → Holds (p ++ t) fault (read p ∷ chunks)
Holds-cons p t fault chunks (cs, same, whole) =
    (p ∷ cs, ap (λ l. read p ∷ l) same, ap (λ s. p ++ s) whole)

send_fault-all : (n : ℕ) (fault : Option Error) → send_fault all_taken n fault ≡ fault_chunks fault
unfolding send_fault
send_fault-all n none = refl
send_fault-all n (some e) = refl

send_body-Holds :
    (n : ℕ) (parts : List Bytes) (last : Bytes) (fault : Option Error)
    → Holds (flatten parts ++ last) fault (send_body all_taken n parts last fault)
unfolding send_body
send_body-Holds n [] [] fault = ([], send_fault-all n fault, refl)
send_body-Holds n [] (x ∷ last) fault = (
  (x ∷ last) ∷ [],
  ap (λ l. read (x ∷ last) ∷ l) (send_fault-all (suc n) fault),
  append-nil (x ∷ last),
)
send_body-Holds n ([] ∷ parts) last fault = send_body-Holds n parts last fault
send_body-Holds n ((x ∷ p) ∷ parts) last fault =
    rw (append_assoc (x ∷ p) (flatten parts) last) (
      Holds-cons (x ∷ p) (flatten parts ++ last) fault _ (send_body-Holds (suc n) parts last fault))

module _ (json : Json) (framing : Framing) where
  -- What a stream ends with: the frame of the bytes that are left, or the fault of the body.
  abbrev pub ending : Option Error → Bytes → List OutChunk
  ending none left = frame_of json framing left
  ending (some e) left =
      if bytes_eq e.text (codes "EOF") then frame_of json framing left else failure e ∷ []

  convert-fault_chunks :
      (fault : Option Error) (left : Bytes)
      → convert json framing all_taken 0 (fault_chunks fault) left ≡ ending fault left
  convert-fault_chunks none left =
      convert-deliver json framing all_taken (λ n. refl) [] 0 left ∙ unfold deliver in refl
  convert-fault_chunks (some e) left = elim (Bool-cases (bytes_eq e.text (codes "EOF"))) [
    | inl eof ↦
        rw eof
          (convert-deliver json framing all_taken (λ n. refl) [] 0 left ∙ unfold deliver in refl)
    | inr other ↦ rw other (
        convert-deliver json framing all_taken (λ n. refl) (broken [] e ∷ []) 0 left
        ∙ unfold deliver in refl)
  ]

  -- A response body that the plugin's own client streams, however it is cut into reads: a consumer
  -- that takes every chunk is sent the frames of the complete lines of the whole body, in order, and
  -- then that of the rest at the end of the body, or the error that ended it. No line may be longer
  -- than 4 MiB.
  pub convert-send_body :
      (body : Body)
      → Fits json framing (split_lines (flatten body.parts ++ body.last))
      → let x = split_lines (flatten body.parts ++ body.last) in
        convert json framing all_taken 0 (send_body all_taken 0 body.parts body.last body.fault) []
        ≡ frames_of json framing x.0 ++ ending body.fault x.1
  convert-send_body body fits =
      let (cs, same, whole) = send_body-Holds 0 body.parts body.last body.fault in
      let x = split_lines (flatten body.parts ++ body.last) in
      let reads = convert-reads json framing cs (fault_chunks body.fault) (rw whole fits) in
      ap (λ (l : List Input). convert json framing all_taken 0 l []) same
      ∙ rw whole at reads
      ∙ ap (λ l. frames_of json framing x.0 ++ l) (convert-fault_chunks body.fault x.1)

one_chunk-text : (s : Bytes) → upstream_text (one_chunk s) ≡ s
unfolding upstream_text
one_chunk-text [] = refl
one_chunk-text (x ∷ s) = append-nil (x ∷ s)

module _ (net : Net) (network : Network net) where
  -- `do` and `doStream` tell the same of a response with an error status: its status, and its body,
  -- of which a failed stream reads at most 1 MiB. The body must be read to its end.
  pub std_stream_reply-std_reply :
      (r : Received)
      → (ltb r.status 200 || leb 300 r.status) ≡ true
      → r.body.fault ≡ none
      → let whole = std_reply net network (inr r) in
        let stream = std_stream_reply net network (inr r) in
        (stream.error ≡ whole.error)
        × (stream.status ≡ whole.status)
        × (read_error_body stream.chunks [] ≡ take (2 ^ 20) whole.body)
  unfolding std_reply std_stream_reply read_all
  std_stream_reply-std_reply r refused ended =
      let text = flatten r.body.parts ++ r.body.last in
      let error_text =
        read_error_body-upstream_text (one_chunk text) ∙ ap (take (2 ^ 20)) (one_chunk-text text) in
      rw (refused, ended) (refl, refl, error_text)

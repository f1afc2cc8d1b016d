-- ===== src/Stream.antt =====
-- The streaming part of executor.go: upstream reads are cut into lines, each line is normalised to
-- bare JSON, and the framing of the route is applied.
pub mod Line
pub mod Lines
pub mod Chunks
pub mod Delivery
pub mod Whole
pub mod Frames
mod Tests
use cpa_plugin_commandcode.Base.{
  ℕ, zero, suc, ◌+◌, ◌*◌, ◌^◌, Bytes, codes, Bool, true, false, not, ◌&&◌, ◌||◌, Option, none, some,
  List, [], ◌∷◌, ◌++◌, length, drop, is_empty, ◌==◌, ltb, if◌then◌else◌, has_prefix, bytes_eq,
}
use cpa_plugin_commandcode.Base.Trim.{trim_space}
use cpa_plugin_commandcode.Base.Dict.{Dict, lookup}
use cpa_plugin_commandcode.Json.{Json}
use cpa_plugin_commandcode.Pool.{Any, string, other, Error}
use cpa_plugin_commandcode.Reasoning.{map_reasoning_body}

-- `streamFramingPolicy`
pub data Framing : Type 0 where
  bare claude : Framing

abbrev pub claude_messages_path : Bytes
claude_messages_path = codes "/v1/messages"

-- `streamFramingForRequest`; the first argument is coreexecutor.RequestPathMetadataKey.
unfoldable pub stream_framing : Bytes → Dict Any → Framing
stream_framing path_key metadata = elim (lookup path_key metadata) [
  | none ↦ bare
  | some (string path) ↦ if bytes_eq path claude_messages_path then claude else bare
  | some other ↦ bare
]

-- `apply`
unfoldable pub apply : Framing → Bytes → Bytes
apply bare payload = payload
apply claude payload = codes "data: " ++ payload

abbrev pub data_prefix : Bytes
data_prefix = codes "data:"

-- The loop that collapses stacked prefixes. Each round makes the payload shorter by the prefix, so
-- its length is fuel enough.
unfoldable pub collapse : ℕ → Bytes → Bytes
collapse zero payload = payload
collapse (suc fuel) payload =
    let p = trim_space payload in
    let rest = collapse fuel (trim_space (drop 5 p)) in
    if has_prefix p data_prefix then rest else payload

-- A chunk of an ExecutorStreamChunk channel.
pub data OutChunk : Type 0 where
  payload : Bytes → OutChunk
  failure : Error → OutChunk

-- What a select statement on an upstream channel receives: a payload, an error with the payload that
-- came with it, or the end of the context with its error. The end of the list is the closed channel.
pub data Input : Type 0 where
  read : Bytes → Input
  broken : Bytes → Error → Input
  cancelled : Error → Input

-- A byte in front of what is split already; a newline ends a line of its own.
unfoldable pub push_byte : ℕ → List Bytes × Bytes → List Bytes × Bytes
push_byte c ([], left) = if c == 10 then ((c ∷ []) ∷ [], left) else ([], c ∷ left)
push_byte c (line ∷ lines, left) =
    if c == 10 then ((c ∷ []) ∷ line ∷ lines, left) else ((c ∷ line) ∷ lines, left)

-- `bytes.IndexByte(pending, '\n')` in a loop: the complete lines, and what is left.
unfoldable pub split_lines : Bytes → List Bytes × Bytes
unfolding push_byte
split_lines [] = ([], [])
split_lines (c ∷ s) = push_byte c (split_lines s)

-- `4<<20`
abbrev pub max_pending : ℕ
max_pending = 4 * 2 ^ 20

module _ (json : Json) where
  open json use {json_valid}

  -- `normalizeStreamLine`; nil is [].
  unfoldable pub normalize_line : Bytes → Bytes
  normalize_line line =
      let trimmed = trim_space line in
      let payload = collapse (suc (length trimmed)) trimmed in
      let (fixed, ok) = map_reasoning_body json payload in
      if not (has_prefix trimmed data_prefix)
      then []
      else if is_empty payload || bytes_eq payload (codes "[DONE]")
      then []
      else if not (json_valid payload)
      then []
      else if ok
      then fixed
      else payload

  -- `taken n` says of the n-th send on the output channel whether the consumer takes the chunk; if
  -- not, the context has ended. What follows a send that fails is not sent: `next` is what follows.
  module _ (framing : Framing) (taken : ℕ → Bool) where
    -- `emit`: a blank payload is dropped.
    unfoldable pub emit : ℕ → Bytes → (ℕ → List OutChunk) → List OutChunk
    emit n frame next =
        let sent = payload (apply framing frame) ∷ next (suc n) in
        if is_empty (trim_space frame) then next n else if taken n then sent else []

    -- The inner loop over the complete lines.
    unfoldable pub emit_lines : ℕ → List Bytes → (ℕ → List OutChunk) → List OutChunk
    unfolding emit
    emit_lines n [] next = next n
    emit_lines n (line ∷ lines) next = emit n (normalize_line line) (λ m. emit_lines m lines next)

    -- `emitError`: at the end of the context a second attempt is made, which does not wait.
    unfoldable pub emit_error : ℕ → Error → List OutChunk
    emit_error n e = if taken n || taken (suc n) then failure e ∷ [] else []

    -- The loop of `convertChunks`, from the number of sends and the bytes that are pending.
    unfoldable pub convert : ℕ → List Input → Bytes → List OutChunk
    unfolding emit emit_lines emit_error
    convert n [] pending = emit n (normalize_line pending) (λ _. [])
    convert n (cancelled e ∷ _) pending = emit_error n e
    convert n (broken _ e ∷ _) pending = emit_error n e
    convert n (read p ∷ inputs) pending =
        let (lines, left) = split_lines (pending ++ p) in
        emit_lines n lines (λ m.
          if ltb max_pending (length left)
          then emit m (normalize_line left) (λ k. convert k inputs [])
          else convert m inputs left)

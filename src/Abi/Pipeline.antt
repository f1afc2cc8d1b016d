-- ===== src/Abi/Pipeline.antt =====
-- A stream of ExecuteStream as the goroutines that carry it, in steps that may interleave: the reader
-- of the upstream (`readHostHTTPStream` of cmd/commandcode/abi.go or doStream of pool.go), the
-- goroutine of `convertChunks` in executor.go and `pumpABIStream` of cmd/commandcode/abi.go. The
-- context is context.Background(), which never ends.
pub mod Refines
pub mod Ends
pub mod Progress
pub mod Fair
pub mod Leak
pub mod Whole
pub mod Hosted
mod Tests
mod WholeTests
use cpa_plugin_commandcode.Base.{
  ℕ, zero, suc, Bytes, Bool, true, false, Option, none, some, List, [], ◌∷◌, ◌++◌, length, is_empty,
  ltb, if◌then◌else◌,
}
use cpa_plugin_commandcode.Config.{or_else}
use cpa_plugin_commandcode.Json.{Json}
use cpa_plugin_commandcode.Pool.{Error}
use cpa_plugin_commandcode.Stream.{
  Framing, OutChunk, payload, failure, Input, read, broken, cancelled, split_lines, max_pending,
}
use cpa_plugin_commandcode.Stream.Chunks.{frame_of, frames_of}
use cpa_plugin_commandcode.Abi.{HostCall, emit_call, close_call}

-- Where the goroutine of `convertChunks` stands: at its select with the bytes that are pending, at a
-- send with the chunks that are left to send and what is pending behind them, if it goes on then, or
-- behind its return, which has closed the channel.
pub data Converter : Type 0 where
  waiting : Bytes → Converter
  sending : List OutChunk → Option Bytes → Converter
  returned : Converter

-- Where `pumpABIStream` stands: in its loop behind a number of emits, or behind its return.
pub data Pump : Type 0 where
  running : ℕ → Pump
  ended : Pump

-- What the reader has left to send on its channel, which has no slot, and whether it has returned: it
-- has closed its channel then, and the response body or the host's stream behind it is done with.
-- Then the converter, the one slot of its channel, the pump, and the calls of the host made so far.
pub data Pipe : Type 0 where
  pipe : List Input → Bool → Converter → Option OutChunk → Pump → List HostCall → Pipe

-- The three goroutines.
pub data Goroutine : Type 0 where
  reader converter pump : Goroutine

module _ (json : Json) (framing : Framing) where
  -- A round of the loop of `convertChunks`: what it sends, and what is pending then, if it goes on.
  unfoldable pub convert_input : Input → Bytes → List OutChunk × Option Bytes
  convert_input (cancelled e) pending = (failure e ∷ [], none)
  convert_input (broken _ e) pending = (failure e ∷ [], none)
  convert_input (read p) pending =
      let (lines, left) = split_lines (pending ++ p) in
      if ltb max_pending (length left)
      then (frames_of json framing lines ++ frame_of json framing left, some [])
      else (frames_of json framing lines, some left)

module _ (emit_error : ℕ → Option Error) where
  -- A round of the loop of `pumpABIStream` on a chunk, its deferred close included: the calls that it
  -- makes, and where it stands then.
  unfoldable pub pump_chunk : ℕ → OutChunk → List HostCall × Pump
  pump_chunk n (failure e) = (close_call e.text ∷ [], ended)
  pump_chunk n (payload p) = if is_empty p then ([], running n) else elim (emit_error n) [
    | some e ↦ (emit_call p ∷ close_call e.text ∷ [], ended)
    | none ↦ (emit_call p ∷ [], running (suc n))
  ]

module _ (json : Json) (framing : Framing) (emit_error : ℕ → Option Error) where
  -- The next step of a goroutine, `none` where it blocks or has returned. A chunk that the reader hands
  -- to the converter is a step of the reader.
  unfoldable pub advance : Goroutine → Pipe → Option Pipe
  unfolding convert_input pump_chunk
  advance reader (pipe [] false c slot u calls) = some (pipe [] true c slot u calls)
  advance reader (pipe [] true c slot u calls) = none
  advance reader (pipe (i ∷ inputs) done (waiting pending) slot u calls) =
      let (chunks, left) = convert_input json framing i pending in
      some (pipe inputs done (sending chunks left) slot u calls)
  advance reader (pipe (i ∷ inputs) done (sending chunks left) slot u calls) = none
  advance reader (pipe (i ∷ inputs) done returned slot u calls) = none
  advance converter (pipe [] true (waiting pending) slot u calls) =
      some (pipe [] true (sending (frame_of json framing pending) none) slot u calls)
  advance converter (pipe [] false (waiting pending) slot u calls) = none
  advance converter (pipe (i ∷ inputs) done (waiting pending) slot u calls) = none
  advance converter (pipe inputs done (sending (x ∷ chunks) left) none u calls) =
      some (pipe inputs done (sending chunks left) (some x) u calls)
  advance converter (pipe inputs done (sending (x ∷ chunks) left) (some y) u calls) = none
  advance converter (pipe inputs done (sending [] (some pending)) slot u calls) =
      some (pipe inputs done (waiting pending) slot u calls)
  advance converter (pipe inputs done (sending [] none) slot u calls) =
      some (pipe inputs done returned slot u calls)
  advance converter (pipe inputs done returned slot u calls) = none
  advance pump (pipe inputs done c (some x) (running n) calls) =
      let (made, u) = pump_chunk emit_error n x in some (pipe inputs done c none u (calls ++ made))
  advance pump (pipe inputs done returned none (running n) calls) =
      some (pipe inputs done returned none ended (calls ++ close_call [] ∷ []))
  advance pump (pipe inputs done (waiting pending) none (running n) calls) = none
  advance pump (pipe inputs done (sending chunks left) none (running n) calls) = none
  advance pump (pipe inputs done c slot ended calls) = none

  -- The goroutines get their turns in some order; a turn of one that blocks changes nothing.
  unfoldable pub interleave : List Goroutine → Pipe → Pipe
  unfolding advance
  interleave [] s = s
  interleave (g ∷ gs) s = interleave gs (or_else (advance g s) s)

-- The stream before the first step.
unfoldable pub start_pipe : List Input → Pipe
start_pipe inputs = pipe inputs false (waiting []) none (running 0) []

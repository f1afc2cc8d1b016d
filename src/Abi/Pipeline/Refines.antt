-- ===== src/Abi/Pipeline/Refines.antt =====
-- However the goroutines of a stream interleave, the host is called as in the composition of the
-- functions of cmd/commandcode/abi.go and executor.go.
use cpa_plugin_commandcode.Base.{
  ℕ, Bytes, true, false, Option, none, some, List, [], ◌∷◌, ◌++◌, map, length, ltb, ◌≡◌, ◌⊎◌, refl,
  sym, ap, ◌∙◌, inl, inr, Bool-cases, Option-cases, append_assoc, append-nil,
}
use cpa_plugin_commandcode.Config.{or_else}
use mathlib.Core.Path.{subst}
use cpa_plugin_commandcode.Json.{Json}
use cpa_plugin_commandcode.Pool.{Error}
use cpa_plugin_commandcode.Stream.{
  Framing, OutChunk, payload, failure, Input, read, broken, cancelled, split_lines, max_pending,
  convert,
}
use cpa_plugin_commandcode.Stream.Chunks.{frame_of, frames_of, deliver, convert-deliver}
use cpa_plugin_commandcode.Abi.{next, HostCall, close_call, pump_stream}
use cpa_plugin_commandcode.Abi.Pipeline.{
  Converter, waiting, sending, returned, Pump, running, ended, Pipe, pipe, Goroutine, reader,
  converter, pump, convert_input, pump_chunk, advance, interleave, start_pipe,
}

abbrev pub in_slot : Option OutChunk → List OutChunk
in_slot none = []
in_slot (some x) = x ∷ []

abbrev pub calls_of : Pipe → List HostCall
calls_of (pipe inputs done c slot u calls) = calls

abbrev pub pump_of : Pipe → Pump
pump_of (pipe inputs done c slot u calls) = u

module _ (json : Json) (framing : Framing) where
  -- What the converter sends from where it stands on, if nothing stops it.
  abbrev pub later : Option Bytes → List Input → List OutChunk
  later none inputs = []
  later (some pending) inputs = deliver json framing inputs pending

  abbrev pub to_send : Converter → List Input → List OutChunk
  to_send (waiting pending) inputs = deliver json framing inputs pending
  to_send (sending chunks left) inputs = chunks ++ later left inputs
  to_send returned inputs = []

  -- The chunks that have not reached the pump.
  abbrev pub chunks_left : Pipe → List OutChunk
  chunks_left (pipe inputs done c slot u calls) = in_slot slot ++ to_send c inputs

  module _ (emit_error : ℕ → Option Error) where
    abbrev pub calls_left : Pump → List OutChunk → List HostCall
    calls_left (running n) chunks = pump_stream emit_error n (map next chunks)
    calls_left ended chunks = []

    -- The calls made, and those that follow if nothing stops a goroutine.
    abbrev outcome : Pipe → List HostCall
    outcome (pipe inputs done c slot u calls) =
        calls ++ calls_left u (in_slot slot ++ to_send c inputs)

    pub deliver-convert_input :
        (i : Input) (inputs : List Input) (pending : Bytes)
        → let (chunks, left) = convert_input json framing i pending in
          deliver json framing (i ∷ inputs) pending ≡ chunks ++ later left inputs
    unfolding deliver convert_input
    deliver-convert_input (cancelled e) inputs pending = refl
    deliver-convert_input (broken p e) inputs pending = refl
    deliver-convert_input (read p) inputs pending =
        let x = split_lines (pending ++ p) in
        elim (Bool-cases (ltb max_pending (length x.1))) [
          | inl long ↦
              rw long
                (sym (append_assoc (frames_of json framing x.0) (frame_of json framing x.1) _))
          | inr short ↦ rw short refl
        ]

    pump_stream-pump_chunk :
        (n : ℕ) (x : OutChunk) (chunks : List OutChunk)
        → let (made, u) = pump_chunk emit_error n x in
          pump_stream emit_error n (next x ∷ map next chunks) ≡ made ++ calls_left u chunks
    unfolding pump_stream pump_chunk
    pump_stream-pump_chunk n (failure e) chunks = refl
    pump_stream-pump_chunk n (payload []) chunks = refl
    pump_stream-pump_chunk n (payload (b ∷ p)) chunks = elim (Option-cases (emit_error n)) [
      | inl fine ↦ rw fine refl
      | inr (e, lost) ↦ rw lost refl
    ]

    -- No step changes what the stream comes to.
    advance-outcome :
        (g : Goroutine) (s : Pipe)
        → outcome (or_else (advance json framing emit_error g s) s) ≡ outcome s
    unfolding advance deliver
    advance-outcome reader (pipe [] false c slot u calls) = refl
    advance-outcome reader (pipe [] true c slot u calls) = refl
    advance-outcome reader (pipe (i ∷ inputs) done (waiting pending) slot u calls) =
        ap (λ l. calls ++ calls_left u (in_slot slot ++ l))
          (sym (deliver-convert_input i inputs pending))
    advance-outcome reader (pipe (i ∷ inputs) done (sending chunks left) slot u calls) = refl
    advance-outcome reader (pipe (i ∷ inputs) done returned slot u calls) = refl
    advance-outcome converter (pipe [] true (waiting pending) slot u calls) =
        ap (λ l. calls ++ calls_left u (in_slot slot ++ l))
          (append-nil (frame_of json framing pending))
    advance-outcome converter (pipe [] false (waiting pending) slot u calls) = refl
    advance-outcome converter (pipe (i ∷ inputs) done (waiting pending) slot u calls) = refl
    advance-outcome converter (pipe inputs done (sending (x ∷ chunks) left) none u calls) = refl
    advance-outcome converter (pipe inputs done (sending (x ∷ chunks) left) (some y) u calls) = refl
    advance-outcome converter (pipe inputs done (sending [] (some pending)) slot u calls) = refl
    advance-outcome converter (pipe inputs done (sending [] none) slot u calls) = refl
    advance-outcome converter (pipe inputs done returned slot u calls) = refl
    advance-outcome pump (pipe inputs done c (some x) (running n) calls) =
        append_assoc calls (pump_chunk emit_error n x).0 _
        ∙ ap (λ l. calls ++ l) (sym (pump_stream-pump_chunk n x (to_send c inputs)))
    advance-outcome pump (pipe inputs done returned none (running n) calls) =
        unfold pump_stream in append-nil (calls ++ close_call [] ∷ [])
    advance-outcome pump (pipe inputs done (waiting pending) none (running n) calls) = refl
    advance-outcome pump (pipe inputs done (sending chunks left) none (running n) calls) = refl
    advance-outcome pump (pipe inputs done c none ended calls) = refl
    advance-outcome pump (pipe inputs done c (some x) ended calls) = refl

    interleave-outcome :
        (gs : List Goroutine) (s : Pipe)
        → outcome (interleave json framing emit_error gs s) ≡ outcome s
    unfolding interleave
    interleave-outcome [] s = refl
    interleave-outcome (g ∷ gs) s =
        interleave-outcome gs (or_else (advance json framing emit_error g s) s)
        ∙ advance-outcome g s

    outcome-ended : (s : Pipe) → pump_of s ≡ ended → outcome s ≡ calls_of s
    outcome-ended (pipe inputs done c slot (running n) calls) h = absurd (cc h)
    outcome-ended (pipe inputs done c slot ended calls) h = append-nil calls

    -- What `pumpABIStream` does on everything that `convertChunks` sends of a whole stream.
    abbrev pub whole_calls : List Input → List HostCall
    whole_calls inputs =
        pump_stream emit_error 0 (map next (convert json framing (λ n. true) 0 inputs []))

    interleave-whole_calls :
        (inputs : List Input) (gs : List Goroutine)
        → outcome (interleave json framing emit_error gs (start_pipe inputs)) ≡ whole_calls inputs
    unfolding start_pipe
    interleave-whole_calls inputs gs =
        interleave-outcome gs (start_pipe inputs)
        ∙ ap (λ l. pump_stream emit_error 0 (map next l))
            (sym (convert-deliver json framing (λ n. true) (λ n. refl) inputs 0 []))

    -- Once the pump has returned it has made all the calls.
    pub interleave-ended :
        (inputs : List Input) (gs : List Goroutine)
        → pump_of (interleave json framing emit_error gs (start_pipe inputs)) ≡ ended
        → calls_of (interleave json framing emit_error gs (start_pipe inputs)) ≡ whole_calls inputs
    interleave-ended inputs gs h =
        sym (outcome-ended (interleave json framing emit_error gs (start_pipe inputs)) h)
        ∙ interleave-whole_calls inputs gs

    -- The pump has returned and has made these calls, or it runs and has made the first of them.
    abbrev pub Makes : List HostCall → Pipe → Type 0
    Makes calls s =
        ((pump_of s ≡ ended) × (calls_of s ≡ calls))
        ⊎ ((n : ℕ) × (rest : List HostCall) × (pump_of s ≡ running n)
            × (calls ≡ calls_of s ++ rest))

    outcome-Makes : (s : Pipe) → Makes (outcome s) s
    outcome-Makes (pipe inputs done c slot (running n) calls) = inr (n, _, refl, refl)
    outcome-Makes (pipe inputs done c slot ended calls) = inl (refl, sym (append-nil calls))

    -- Whatever the order of the steps and whichever emits fail, at any time `pumpABIStream` has either
    -- returned, and made exactly the calls of the host that it makes on everything that
    -- `convertChunks` sends of the whole stream, or it runs, and has made the first of these calls.
    pub interleave-pump_stream :
        (inputs : List Input) (gs : List Goroutine)
        → Makes
            (pump_stream emit_error 0 (map next (convert json framing (λ n. true) 0 inputs [])))
            (interleave json framing emit_error gs (start_pipe inputs))
    interleave-pump_stream inputs gs =
        subst (λ l. Makes l (interleave json framing emit_error gs (start_pipe inputs)))
          (interleave-whole_calls inputs gs)
          (outcome-Makes (interleave json framing emit_error gs (start_pipe inputs)))

-- ===== src/Abi/Pipeline/Leak.antt =====
-- What becomes of the goroutines of a stream when an emit of `pumpABIStream`, in
-- cmd/commandcode/abi.go, fails.
use cpa_plugin_commandcode.Base.{
  ℕ, ◌+◌, ◌≤◌, Bytes, Bool, false, Option, none, some, List, [], ◌∷◌, ◌++◌, length, is_empty, ◌≡◌,
  refl, inl, inr, Option-cases, length-append, arith,
}
use cpa_plugin_commandcode.Config.{or_else}
use cpa_plugin_commandcode.Json.{Json}
use cpa_plugin_commandcode.Pool.{Error}
use cpa_plugin_commandcode.Stream.{Framing, OutChunk, payload, Input}
use cpa_plugin_commandcode.Abi.{HostCall, emit_call, close_call}
use cpa_plugin_commandcode.Abi.Pipeline.{
  Converter, waiting, sending, returned, running, ended, Pipe, pipe, Goroutine, reader, converter,
  pump, convert_input, pump_chunk, advance, interleave,
}
use cpa_plugin_commandcode.Abi.Pipeline.Refines.{in_slot, calls_of}

-- Whether the reader has returned.
abbrev pub reader_done : Pipe → Bool
reader_done (pipe inputs done c slot u calls) = done

module _ (json : Json) (framing : Framing) where
  -- The chunks of all inputs but the last.
  abbrev pub early : List Input → Bytes → List OutChunk
  early [] pending = []
  early (i ∷ []) pending = []
  early (i ∷ j ∷ inputs) pending =
      (convert_input json framing i pending).0 ++ elim (convert_input json framing i pending).1 [
        | none ↦ []
        | some left ↦ early (j ∷ inputs) left
      ]

  abbrev early_behind : Option Bytes → List Input → List OutChunk
  early_behind none inputs = []
  early_behind (some pending) inputs = early inputs pending

  -- How many chunks the converter sends before it receives the last input.
  abbrev pub due : Converter → List Input → ℕ
  due (waiting pending) inputs = length (early inputs pending)
  due (sending chunks left) inputs = length chunks + length (early_behind left inputs)
  due returned inputs = 0

  -- The pump has returned, the reader has not, and there is more to send than the slot takes before the
  -- reader is rid of its last input.
  abbrev IsStuck : Pipe → List HostCall → Type 0
  IsStuck (pipe [] done c slot u calls) made = ⊥
  IsStuck (pipe (i ∷ inputs) done c slot u calls) made =
      (done ≡ false)
      × (u ≡ ended)
      × (calls ≡ made)
      × (2 ≤ length (in_slot slot) + due c (i ∷ inputs))

  slot-length : (slot : Option OutChunk) → length (in_slot slot) ≤ 1
  slot-length none = omega arith
  slot-length (some x) = omega arith

  due-convert_input :
      (i j : Input) (inputs : List Input) (pending : Bytes)
      → let (chunks, left) = convert_input json framing i pending in
        due (waiting pending) (i ∷ j ∷ inputs) ≡ due (sending chunks left) (j ∷ inputs)
  due-convert_input i j inputs pending =
      let (chunks, left) = convert_input json framing i pending in
      elim (Option-cases left) [
        | inl end ↦ rw end (length-append chunks [])
        | inr (q, more) ↦ rw more (length-append chunks (early (j ∷ inputs) q))
      ]

  module _ (emit_error : ℕ → Option Error) where
    advance-IsStuck :
        (g : Goroutine) (s : Pipe) (made : List HostCall)
        → IsStuck s made
        → IsStuck (or_else (advance json framing emit_error g s) s) made
    unfolding advance
    advance-IsStuck g (pipe [] done c slot u calls) made h = absurd h
    advance-IsStuck reader (pipe (i ∷ []) done (waiting pending) slot u calls) made h =
        absurd (omega (arith, h.3, slot-length slot))
    advance-IsStuck reader (pipe (i ∷ j ∷ inputs) done (waiting pending) slot u calls) made h =
        (h.0, h.1, h.2, omega (arith, h.3, due-convert_input i j inputs pending))
    advance-IsStuck reader (pipe (i ∷ inputs) done (sending chunks left) slot u calls) made h = h
    advance-IsStuck reader (pipe (i ∷ inputs) done returned slot u calls) made h = h
    advance-IsStuck converter (pipe (i ∷ inputs) done (waiting pending) slot u calls) made h = h
    advance-IsStuck converter (pipe (i ∷ inputs) done (sending (x ∷ chunks) left) none u calls) made
          h =
        (h.0, h.1, h.2, omega (arith, h.3))
    advance-IsStuck converter (pipe (i ∷ inputs) done (sending (x ∷ chunks) left) (some y) u calls)
          made h =
        h
    advance-IsStuck converter (pipe (i ∷ inputs) done (sending [] (some q)) slot u calls) made h =
        (h.0, h.1, h.2, omega (arith, h.3))
    advance-IsStuck converter (pipe (i ∷ inputs) done (sending [] none) slot u calls) made h =
        absurd (omega (arith, h.3, slot-length slot))
    advance-IsStuck converter (pipe (i ∷ inputs) done returned slot u calls) made h = h
    advance-IsStuck pump (pipe (i ∷ inputs) done c slot (running n) calls) made h = absurd (cc h.1)
    advance-IsStuck pump (pipe (i ∷ inputs) done c none ended calls) made h = h
    advance-IsStuck pump (pipe (i ∷ inputs) done c (some x) ended calls) made h = h

    interleave-IsStuck :
        (gs : List Goroutine) (s : Pipe) (made : List HostCall)
        → IsStuck s made
        → IsStuck (interleave json framing emit_error gs s) made
    unfolding interleave
    interleave-IsStuck [] s made h = h
    interleave-IsStuck (g ∷ gs) s made h = interleave-IsStuck gs _ made (advance-IsStuck g s made h)

    IsStuck-reader :
        (s : Pipe) (made : List HostCall)
        → IsStuck s made
        → (reader_done s ≡ false) × (calls_of s ≡ made)
    IsStuck-reader (pipe [] done c slot u calls) made h = absurd h
    IsStuck-reader (pipe (i ∷ inputs) done c slot u calls) made h = (h.0, h.2)

    -- If an emit fails while the converter has at least two more chunks to send before it receives the
    -- last input of the reader, `pumpABIStream` closes the host's stream with the error and makes no
    -- further call, and the reader never returns, in whichever order the steps go on.
    pub interleave-leaks :
        (n : ℕ) (p : Bytes) (e : Error) (i : Input) (inputs : List Input) (c : Converter)
        (calls : List HostCall) (gs : List Goroutine)
        → emit_error n ≡ some e
        → is_empty p ≡ false
        → 2 ≤ due c (i ∷ inputs)
        → let s =
            interleave json framing emit_error
              (pump ∷ gs)
              (pipe (i ∷ inputs) false c (some (payload p)) (running n) calls) in
          (reader_done s ≡ false) × (calls_of s ≡ calls ++ emit_call p ∷ close_call e.text ∷ [])
    unfolding interleave advance pump_chunk
    interleave-leaks n p e i inputs c calls gs fails full more =
        rw (full, fails)
          (IsStuck-reader _ _ (
            interleave-IsStuck gs
              (pipe (i ∷ inputs) false c none ended (calls ++ emit_call p ∷ close_call e.text ∷ []))
              (calls ++ emit_call p ∷ close_call e.text ∷ [])
              (refl, refl, refl, omega (arith, more))))

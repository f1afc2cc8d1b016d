-- ===== src/Abi/Pipeline/Progress.antt =====
-- A stream of cmd/commandcode/abi.go whose emits do not fail: some goroutine can always go on until
-- all have returned, and every step is one of a bounded number.
use cpa_plugin_commandcode.Base.{
  ℕ, ◌+◌, ◌*◌, ◌<◌, ◌≤◌, Bytes, Bool, true, false, Option, none, some, List, [], ◌∷◌, ◌++◌, length,
  ltb, if◌then◌else◌, ◌≡◌, ◌⊎◌, refl, sym, ap, inl, inr, Bool-cases, Option-cases, append-nil,
  arith,
}
use mathlib.Core.Path.{subst}
use cpa_plugin_commandcode.Json.{Json}
use cpa_plugin_commandcode.Pool.{Error}
use cpa_plugin_commandcode.Stream.{
  Framing, OutChunk, payload, failure, Input, read, broken, cancelled, split_lines, max_pending,
}
use cpa_plugin_commandcode.Stream.Chunks.{frame_of, deliver}
use cpa_plugin_commandcode.Abi.Pipeline.{
  Converter, waiting, sending, returned, Pump, running, ended, Pipe, pipe, Goroutine, reader,
  converter, pump, convert_input, pump_chunk, advance,
}
use cpa_plugin_commandcode.Abi.Pipeline.Ends.{EndsWell, FailsLast}
use cpa_plugin_commandcode.Abi.Pipeline.Refines.{in_slot, to_send, deliver-convert_input}

-- What the reader may have left to send, by where the converter stands.
abbrev pub FitsReader : Converter → List Input → Type 0
FitsReader (waiting pending) inputs = EndsWell inputs
FitsReader (sending chunks (some pending)) inputs = EndsWell inputs
FitsReader (sending chunks none) inputs = inputs ≡ []
FitsReader returned inputs = inputs ≡ []

-- A pump that has returned has nothing to receive.
abbrev pub FitsPump : Pump → List OutChunk → Type 0
FitsPump (running n) chunks = FailsLast chunks
FitsPump ended chunks = chunks ≡ []

-- All three goroutines have returned.
abbrev pub IsDone : Pipe → Type 0
IsDone (pipe inputs done c slot u calls) =
    (inputs ≡ []) × (done ≡ true) × (c ≡ returned) × (slot ≡ none) × (u ≡ ended)

-- The steps that are left, from above.
abbrev converter_work : Converter → ℕ
converter_work (waiting pending) = 2
converter_work (sending chunks (some pending)) = 3
converter_work (sending chunks none) = 1
converter_work returned = 0

abbrev pump_work : Pump → ℕ
pump_work (running n) = 1
pump_work ended = 0

pump_work-le : (u : Pump) → pump_work u ≤ 1
pump_work-le (running n) = omega arith
pump_work-le ended = omega arith

abbrev reader_work : List Input → Bool → ℕ
reader_work inputs done = 2 * length inputs + (if done then 0 else 1)

module _ (json : Json) (framing : Framing) where
  abbrev pub IsSound : Pipe → Type 0
  IsSound (pipe inputs done c slot u calls) =
      FitsReader c inputs × FitsPump u (in_slot slot ++ to_send json framing c inputs)

  abbrev pub work : Pipe → ℕ
  work (pipe inputs done c slot u calls) =
      2 * length (to_send json framing c inputs)
      + length (in_slot slot)
      + converter_work c
      + reader_work inputs done
      + pump_work u

  convert_input-FitsReader :
      (i : Input) (inputs : List Input) (pending : Bytes)
      → EndsWell (i ∷ inputs)
      → let (chunks, left) = convert_input json framing i pending in
        FitsReader (sending chunks left) inputs
  unfolding convert_input
  convert_input-FitsReader (cancelled e) inputs pending h = absurd h
  convert_input-FitsReader (broken p e) inputs pending h = h
  convert_input-FitsReader (read p) inputs pending h =
      let x = split_lines (pending ++ p) in
      elim (Bool-cases (ltb max_pending (length x.1))) [
        | inl long ↦ rw long h
        | inr short ↦ rw short h
      ]

  convert_input-work :
      (i : Input) (pending : Bytes)
      → let (chunks, left) = convert_input json framing i pending in
        converter_work (sending chunks left) ≤ 3
  convert_input-work i pending = elim (Option-cases (convert_input json framing i pending).1) [
    | inl end ↦ rw end (omega arith)
    | inr (p, more) ↦ rw more (omega arith)
  ]

  module _ (emit_error : ℕ → Option Error) where
    -- The step is there, and it is one less.
    abbrev pub Goes : Goroutine → Pipe → Type 0
    Goes g s = (t : Pipe) × (advance json framing emit_error g s ≡ some t)

    -- Until all have returned some goroutine can go on.
    pub IsSound-Goes : (s : Pipe) → IsSound s → IsDone s ⊎ ((g : Goroutine) × Goes g s)
    unfolding advance
    IsSound-Goes (pipe [] false c slot u calls) h = inr (reader, (_, refl))
    IsSound-Goes (pipe [] true (waiting pending) slot u calls) h = inr (converter, (_, refl))
    IsSound-Goes (pipe (i ∷ inputs) done (waiting pending) slot u calls) h = inr (reader, (_, refl))
    IsSound-Goes (pipe (i ∷ inputs) done returned slot u calls) h = absurd (cc h.0)
    IsSound-Goes (pipe inputs done (sending [] (some pending)) slot u calls) h =
        inr (converter, (_, refl))
    IsSound-Goes (pipe inputs done (sending [] none) slot u calls) h = inr (converter, (_, refl))
    IsSound-Goes (pipe inputs done (sending (x ∷ chunks) left) none u calls) h =
        inr (converter, (_, refl))
    IsSound-Goes (pipe inputs done (sending (x ∷ chunks) left) (some y) (running n) calls) h =
        inr (pump, (_, refl))
    IsSound-Goes (pipe inputs done (sending (x ∷ chunks) left) (some y) ended calls) h =
        absurd (cc h.1)
    IsSound-Goes (pipe [] true returned (some x) (running n) calls) h = inr (pump, (_, refl))
    IsSound-Goes (pipe [] true returned none (running n) calls) h = inr (pump, (_, refl))
    IsSound-Goes (pipe [] true returned (some x) ended calls) h = absurd (cc h.1)
    IsSound-Goes (pipe [] true returned none ended calls) h = inl (refl, refl, refl, refl, refl)

    -- What a step leaves, if there is one.
    abbrev pub Steps : Pipe → Option Pipe → Type 0
    Steps s none = Unit
    Steps s (some t) = IsSound t × (work t < work s)

    module _ (fine : (n : ℕ) → emit_error n ≡ none) where
      pump_chunk-FitsPump :
          (n : ℕ) (x : OutChunk) (chunks : List OutChunk)
          → FailsLast (x ∷ chunks)
          → FitsPump (pump_chunk emit_error n x).1 chunks
      unfolding pump_chunk
      pump_chunk-FitsPump n (failure e) chunks h = h
      pump_chunk-FitsPump n (payload []) chunks h = h
      pump_chunk-FitsPump n (payload (b ∷ p)) chunks h = rw (fine n) h

      pub advance-Steps :
          (g : Goroutine) (s : Pipe) → IsSound s → Steps s (advance json framing emit_error g s)
      unfolding advance deliver
      advance-Steps reader (pipe [] false c slot u calls) h = (h, omega arith)
      advance-Steps reader (pipe [] true c slot u calls) h = tt
      advance-Steps reader (pipe (i ∷ inputs) done (waiting pending) slot u calls) h =
          let same = deliver-convert_input json framing emit_error i inputs pending in
          (
            (
              convert_input-FitsReader i inputs pending h.0,
              subst (λ l. FitsPump u (in_slot slot ++ l)) same h.1,
            ),
            omega (arith, ap length same, convert_input-work i pending),
          )
      advance-Steps reader (pipe (i ∷ inputs) done (sending chunks left) slot u calls) h = tt
      advance-Steps reader (pipe (i ∷ inputs) done returned slot u calls) h = tt
      advance-Steps converter (pipe [] true (waiting pending) slot u calls) h =
          let same = append-nil (frame_of json framing pending) in
          (
            (refl, subst (λ l. FitsPump u (in_slot slot ++ l)) (sym same) h.1),
            omega (arith, ap length same),
          )
      advance-Steps converter (pipe [] false (waiting pending) slot u calls) h = tt
      advance-Steps converter (pipe (i ∷ inputs) done (waiting pending) slot u calls) h = tt
      advance-Steps converter (pipe inputs done (sending (x ∷ chunks) (some left)) none u calls) h =
          (h, omega arith)
      advance-Steps converter (pipe inputs done (sending (x ∷ chunks) none) none u calls) h =
          (h, omega arith)
      advance-Steps converter (pipe inputs done (sending (x ∷ chunks) left) (some y) u calls) h = tt
      advance-Steps converter (pipe inputs done (sending [] (some pending)) slot u calls) h =
          (h, omega arith)
      advance-Steps converter (pipe inputs done (sending [] none) slot u calls) h = (h, omega arith)
      advance-Steps converter (pipe inputs done returned slot u calls) h = tt
      advance-Steps pump (pipe inputs done c (some x) (running n) calls) h = (
        (h.0, pump_chunk-FitsPump n x (to_send json framing c inputs) h.1),
        omega (arith, pump_work-le (pump_chunk emit_error n x).1),
      )
      advance-Steps pump (pipe inputs done returned none (running n) calls) h =
          ((h.0, refl), omega arith)
      advance-Steps pump (pipe inputs done (waiting pending) none (running n) calls) h = tt
      advance-Steps pump (pipe inputs done (sending chunks left) none (running n) calls) h = tt
      advance-Steps pump (pipe inputs done c none ended calls) h = tt
      advance-Steps pump (pipe inputs done c (some x) ended calls) h = tt

-- ===== src/Abi/Pipeline/Fair.antt =====
-- A stream of cmd/commandcode/abi.go whose emits do not fail ends, if every goroutine gets its turns.
use cpa_plugin_commandcode.Base.{
  ℕ, ◌+◌, ◌*◌, ◌<◌, ◌≤◌, true, Option, none, some, List, [], ◌∷◌, ◌++◌, map, length, flatten, All,
  ◌≡◌, ◌⊎◌, refl, ap, inl, inr, Option-cases, arith,
}
use mathlib.Core.Path.{subst}
use native.Mathlib.Nat.{le_trans}
use cpa_plugin_commandcode.Config.{or_else}
use cpa_plugin_commandcode.Json.{Json}
use cpa_plugin_commandcode.Pool.{Error}
use cpa_plugin_commandcode.Stream.{Framing, Input, convert}
use cpa_plugin_commandcode.Stream.Chunks.{convert-deliver}
use cpa_plugin_commandcode.Abi.{next, pump_stream}
use cpa_plugin_commandcode.Abi.Pipeline.{
  returned, ended, Pipe, pipe, Goroutine, reader, converter, pump, advance, interleave, start_pipe,
}
use cpa_plugin_commandcode.Abi.Pipeline.Refines.{calls_of, pump_of, interleave-ended}
use cpa_plugin_commandcode.Abi.Pipeline.Ends.{EndsWell, deliver-FailsLast}
use cpa_plugin_commandcode.Abi.Pipeline.Progress.{
  IsDone, IsSound, work, Goes, Steps, IsSound-Goes, advance-Steps,
}

-- The goroutine gets one of the turns.
abbrev pub GetsTurn : Goroutine → List Goroutine → Type 0
GetsTurn g [] = ⊥
GetsTurn g (h ∷ hs) = (h ≡ g) ⊎ GetsTurn g hs

-- Turns among which each goroutine has one.
abbrev pub IsRound : List Goroutine → Type 0
IsRound gs = (g : Goroutine) → GetsTurn g gs

module _ (json : Json) (framing : Framing) (emit_error : ℕ → Option Error)
    (fine : (n : ℕ) → emit_error n ≡ none) where
  abbrev Holds : Pipe → Pipe → Type 0
  Holds s t = IsSound json framing t × (work json framing t ≤ work json framing s)

  turn-Holds :
      (s : Pipe) (o : Option Pipe)
      → IsSound json framing s
      → Steps json framing emit_error s o
      → Holds s (or_else o s)
  turn-Holds s none h k = (h, omega arith)
  turn-Holds s (some t) h k = (k.0, omega (arith, k.1))

  interleave-Holds :
      (gs : List Goroutine) (s : Pipe)
      → IsSound json framing s
      → Holds s (interleave json framing emit_error gs s)
  unfolding interleave
  interleave-Holds [] s h = (h, omega arith)
  interleave-Holds (g ∷ gs) s h =
      let (sound, less) =
        turn-Holds s (advance json framing emit_error g s) h
          (advance-Steps json framing emit_error fine g s h) in
      let (kept, least) = interleave-Holds gs _ sound in (kept, le_trans least less)

  Goes-less :
      (g : Goroutine) (s : Pipe)
      → IsSound json framing s
      → (goes : Goes json framing emit_error g s)
      → IsSound json framing goes.0 × (work json framing goes.0 < work json framing s)
  Goes-less g s h (t, e) =
      subst (Steps json framing emit_error s) e (advance-Steps json framing emit_error fine g s h)

  -- Turns in which a goroutine that can go on has one make the work less.
  interleave-less :
      (gs : List Goroutine) (g : Goroutine) (s : Pipe)
      → IsSound json framing s
      → Goes json framing emit_error g s
      → GetsTurn g gs
      → work json framing (interleave json framing emit_error gs s) < work json framing s
  unfolding interleave
  interleave-less [] g s h goes turn = absurd turn
  interleave-less (b ∷ gs) g s h goes turn =
      elim (Option-cases (advance json framing emit_error b s)) [
        | inl blocked ↦ rw blocked (interleave-less gs g s h goes (not_first turn blocked))
        | inr (t, e) ↦
            let (sound, less) = Goes-less b s h (t, e) in
            rw e (omega (arith, (interleave-Holds gs t sound).1, less))
      ]
    where
      not_first : GetsTurn g (b ∷ gs) → advance json framing emit_error b s ≡ none → GetsTurn g gs
      not_first (inl same) blocked = absurd (cc (rw same at blocked, goes.1))
      not_first (inr turn) blocked = turn

  IsDone-stays :
      (gs : List Goroutine) (s : Pipe) → IsDone s → interleave json framing emit_error gs s ≡ s
  unfolding interleave advance
  IsDone-stays gs (pipe inputs done c slot u calls) (i, d, k, l, m) = rw (i, d, k, l, m) (stays gs)
    where
      stays :
          (hs : List Goroutine)
          → interleave json framing emit_error hs (pipe [] true returned none ended calls)
            ≡ pipe [] true returned none ended calls
      stays [] = refl
      stays (reader ∷ hs) = stays hs
      stays (converter ∷ hs) = stays hs
      stays (pump ∷ hs) = stays hs

  interleave-append :
      (gs hs : List Goroutine) (s : Pipe)
      → interleave json framing emit_error (gs ++ hs) s
        ≡ interleave json framing emit_error hs (interleave json framing emit_error gs s)
  unfolding interleave
  interleave-append [] hs s = refl
  interleave-append (g ∷ gs) hs s = interleave-append gs hs _

  rounds-IsDone :
      (rounds : List (List Goroutine)) (s : Pipe)
      → IsSound json framing s
      → All IsRound rounds
      → work json framing s ≤ length rounds
      → IsDone (interleave json framing emit_error (flatten rounds) s)
  unfolding interleave
  rounds-IsDone [] s h all enough = elim (IsSound-Goes json framing emit_error s h) [
    | inl done ↦ done
    | inr (g, goes) ↦ absurd (omega (arith, (Goes-less g s h goes).1, enough))
  ]
  rounds-IsDone (r ∷ rounds) s h (turns, all) enough =
      rw (interleave-append r (flatten rounds) s) (elim (IsSound-Goes json framing emit_error s h) [
        | inl done ↦ rw (IsDone-stays r s done) (rw (IsDone-stays (flatten rounds) s done) done)
        | inr (g, goes) ↦
            rounds-IsDone rounds _ (interleave-Holds r s h).0 all
              (omega (arith, interleave-less r g s h goes (turns g), enough))
      ])

  IsDone-ended : (s : Pipe) → IsDone s → pump_of s ≡ ended
  IsDone-ended (pipe inputs done c slot u calls) h = h.4

  -- If no emit fails and what the reader sends has no error but at its end, every order of the steps
  -- in which each goroutine gets a turn often enough ends with all three returned, the reader included,
  -- and with the calls of the host that `pumpABIStream` makes on everything that `convertChunks`
  -- sends. Two rounds for each chunk sent and each input, and four more, are enough.
  pub interleave-IsDone :
      (inputs : List Input) (rounds : List (List Goroutine))
      → EndsWell inputs
      → All IsRound rounds
      → 2 * length (convert json framing (λ n. true) 0 inputs []) + 2 * length inputs + 4
        ≤ length rounds
      → let s = interleave json framing emit_error (flatten rounds) (start_pipe inputs) in
        IsDone s
        × (calls_of s
            ≡ pump_stream emit_error 0 (map next (convert json framing (λ n. true) 0 inputs [])))
  unfolding start_pipe
  interleave-IsDone inputs rounds ends turns enough =
      let same = ap length (convert-deliver json framing (λ n. true) (λ n. refl) inputs 0 []) in
      let done =
        rounds-IsDone rounds (start_pipe inputs)
          (ends, deliver-FailsLast json framing inputs [] ends) turns
          (omega (arith, same, enough)) in
      (done, interleave-ended json framing emit_error inputs (flatten rounds) (IsDone-ended _ done))

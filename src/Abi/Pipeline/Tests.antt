-- ===== src/Abi/Pipeline/Tests.antt =====
-- Examples for the theorems about the goroutines of a stream.
use cpa_plugin_commandcode.Base.{
  codes, List, [], ◌∷◌, ◌++◌, map, length, flatten, All, some, none, true, false, Bytes, ◌≡◌, refl,
  inl, inr, arith,
}
use cpa_plugin_commandcode.Base.Trim.{trim_space}
use cpa_plugin_commandcode.Base.{ℕ, zero, suc, has_prefix, bytes_eq, contains}
use cpa_plugin_commandcode.Pool.{plain_error}
use cpa_plugin_commandcode.Stream.{
  apply, bare, payload, Input, read, split_lines, convert, normalize_line, collapse,
}
use cpa_plugin_commandcode.Stream.Chunks.{frames_of}
use cpa_plugin_commandcode.Reasoning.{map_reasoning_body}
use cpa_plugin_commandcode.Toys.{toy_json}
use cpa_plugin_commandcode.Abi.{next, emit_call, close_call, pump_stream}
use cpa_plugin_commandcode.Abi.Pipeline.{
  Goroutine, reader, converter, pump, sending, running, ended, pipe, interleave, start_pipe,
}
use cpa_plugin_commandcode.Abi.Pipeline.Refines.{calls_of, pump_of, Makes, interleave-pump_stream}
use cpa_plugin_commandcode.Abi.Pipeline.Progress.{IsDone}
use cpa_plugin_commandcode.Abi.Pipeline.Fair.{IsRound, interleave-IsDone}
use cpa_plugin_commandcode.Abi.Pipeline.Leak.{reader_done, interleave-leaks}

-- A line with a frame, and a line without one.
abbrev inputs : List Input
inputs = read (codes "data: {}\n") ∷ read (codes "x") ∷ []

abbrev round_robin : List Goroutine
round_robin = pump ∷ converter ∷ reader ∷ []

round_robin-IsRound : IsRound round_robin
round_robin-IsRound pump = inl refl
round_robin-IsRound converter = inr (inl refl)
round_robin-IsRound reader = inr (inr (inl refl))

abbrev pub repeated : ℕ → List (List Goroutine)
repeated zero = []
repeated (suc n) = round_robin ∷ repeated n

pub repeated-All : (n : ℕ) → All IsRound (repeated n)
repeated-All zero = tt
repeated-All (suc n) = (round_robin-IsRound, repeated-All n)

abbrev rounds : List (List Goroutine)
rounds = repeated 10

one_frame : length (convert toy_json bare (λ n. true) 0 inputs []) ≡ 1
unfolding convert split_lines trim_space normalize_line has_prefix collapse bytes_eq
    map_reasoning_body contains
one_frame = refl

interleave-IsDone_example :
    let s = interleave toy_json bare (λ n. none) (flatten rounds) (start_pipe inputs) in
    IsDone s
    × (calls_of s
        ≡ pump_stream (λ n. none) 0 (map next (convert toy_json bare (λ n. true) 0 inputs [])))
interleave-IsDone_example =
    interleave-IsDone toy_json bare (λ n. none) (λ n. refl) inputs rounds tt (repeated-All 10)
      (omega (arith, one_frame))

-- The first emit fails.
interleave-pump_stream_example :
    Makes toy_json bare
      (λ n. some (plain_error (codes "gone")))
      (pump_stream
        (λ n. some (plain_error (codes "gone")))
        0
        (map next (convert toy_json bare (λ n. true) 0 inputs [])))
      (interleave toy_json bare
        (λ n. some (plain_error (codes "gone")))
        (flatten rounds)
        (start_pipe inputs))
interleave-pump_stream_example =
    interleave-pump_stream toy_json bare (λ n. some (plain_error (codes "gone"))) inputs
      (flatten rounds)

pumped :
    pump_of (
      interleave toy_json bare
        (λ n. some (plain_error (codes "gone")))
        (flatten rounds)
        (start_pipe inputs))
    ≡ ended
unfolding interleave start_pipe convert split_lines trim_space normalize_line has_prefix collapse
    bytes_eq frames_of map_reasoning_body contains apply
pumped = refl

-- A text with four frames, in one read, whose first emit fails, behind the first three steps.
abbrev lines : Bytes
lines = codes "data: {}\ndata: {}\ndata: {}\ndata: {}\n"

abbrev frames : List Input
frames = read lines ∷ read lines ∷ []

first_steps :
    interleave toy_json bare
      (λ n. some (plain_error (codes "gone")))
      (reader ∷ converter ∷ [])
      (start_pipe frames)
    ≡ pipe
        (read lines ∷ [])
        false
        (sending
          (payload (codes "{}") ∷ payload (codes "{}") ∷ payload (codes "{}") ∷ [])
          (some []))
        (some (payload (codes "{}")))
        (running 0)
        []
unfolding interleave start_pipe convert split_lines trim_space normalize_line has_prefix collapse
    bytes_eq frames_of map_reasoning_body contains apply
first_steps = refl

interleave-leaks_example :
    let s =
      interleave toy_json bare
        (λ n. some (plain_error (codes "gone")))
        (pump ∷ flatten rounds)
        (pipe
          (read lines ∷ [])
          false
          (sending
            (payload (codes "{}") ∷ payload (codes "{}") ∷ payload (codes "{}") ∷ [])
            (some []))
          (some (payload (codes "{}")))
          (running 0)
          []) in
    (reader_done s ≡ false)
    × (calls_of s ≡ [] ++ emit_call (codes "{}") ∷ close_call (codes "gone") ∷ [])
interleave-leaks_example =
    interleave-leaks toy_json bare (λ n. some (plain_error (codes "gone"))) 0 (codes "{}")
      (plain_error (codes "gone")) (read lines) []
      (sending (payload (codes "{}") ∷ payload (codes "{}") ∷ payload (codes "{}") ∷ []) (some []))
      [] (flatten rounds) refl refl (omega arith)

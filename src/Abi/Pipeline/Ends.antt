-- ===== src/Abi/Pipeline/Ends.antt =====
-- How the streams of executor.go end that `pumpABIStream` of cmd/commandcode/abi.go receives: an error
-- is the last thing.
use cpa_plugin_commandcode.Base.{
  Bytes, List, [], ◌∷◌, ◌++◌, length, ltb, ◌≡◌, refl, inl, inr, Bool-cases, append_assoc,
  append-nil, arith,
}
use mathlib.Core.Path.{subst}
use cpa_plugin_commandcode.Json.{Json}
use cpa_plugin_commandcode.Stream.{
  Framing, OutChunk, payload, failure, Input, read, broken, cancelled, split_lines, max_pending,
}
use cpa_plugin_commandcode.Stream.Chunks.{frame_of, frames_of, deliver}

-- What a reader sends: reads, and possibly an error behind the last one.
abbrev pub EndsWell : List Input → Type 0
EndsWell [] = Unit
EndsWell (read p ∷ inputs) = EndsWell inputs
EndsWell (broken p e ∷ inputs) = inputs ≡ []
EndsWell (cancelled e ∷ inputs) = ⊥

-- Chunks of which none but the last is an error.
abbrev pub FailsLast : List OutChunk → Type 0
FailsLast [] = Unit
FailsLast (payload p ∷ chunks) = FailsLast chunks
FailsLast (failure e ∷ chunks) = chunks ≡ []

module _ (json : Json) (framing : Framing) where
  frame_of-FailsLast :
      (line : Bytes) (chunks : List OutChunk)
      → FailsLast chunks
      → FailsLast (frame_of json framing line ++ chunks)
  unfolding frame_of
  frame_of-FailsLast line chunks h = ground arith

  frames_of-FailsLast :
      (lines : List Bytes) (chunks : List OutChunk)
      → FailsLast chunks
      → FailsLast (frames_of json framing lines ++ chunks)
  unfolding frames_of
  frames_of-FailsLast [] chunks h = h
  frames_of-FailsLast (l ∷ lines) chunks h =
      rw (append_assoc (frame_of json framing l) (frames_of json framing lines) chunks)
        (frame_of-FailsLast l _ (frames_of-FailsLast lines chunks h))

  pub deliver-FailsLast :
      (inputs : List Input) (pending : Bytes)
      → EndsWell inputs
      → FailsLast (deliver json framing inputs pending)
  unfolding deliver
  deliver-FailsLast [] pending h =
      subst FailsLast (append-nil (frame_of json framing pending))
        (frame_of-FailsLast pending [] tt)
  deliver-FailsLast (cancelled e ∷ inputs) pending h = absurd h
  deliver-FailsLast (broken p e ∷ inputs) pending h = refl
  deliver-FailsLast (read p ∷ inputs) pending h =
      let x = split_lines (pending ++ p) in
      elim (Bool-cases (ltb max_pending (length x.1))) [
        | inl long ↦
            rw long
              (frames_of-FailsLast x.0 _ (frame_of-FailsLast x.1 _ (deliver-FailsLast inputs [] h)))
        | inr short ↦ rw short (frames_of-FailsLast x.0 _ (deliver-FailsLast inputs x.1 h))
      ]

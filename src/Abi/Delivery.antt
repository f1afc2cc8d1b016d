-- ===== src/Abi/Delivery.antt =====
-- The calls of the host that a stream of frames comes to.
use cpa_plugin_commandcode.Base.{
  ℕ, suc, Bytes, codes, append-nil, bytes_eq, sym, if◌then◌else◌, false, Option, none, some, List,
  [], ◌∷◌, ◌++◌, map, inl, inr, is_empty, ◌≡◌, refl, ap, ◌∙◌, Bool-cases,
}
use cpa_plugin_commandcode.Base.Trim.{trim_space}
use cpa_plugin_commandcode.Json.{Json}
use cpa_plugin_commandcode.Pool.{Error}
use cpa_plugin_commandcode.Stream.{
  Framing, bare, claude, apply, OutChunk, payload, failure, split_lines, normalize_line,
}
use cpa_plugin_commandcode.Stream.Chunks.{frame_of, frames_of}
use cpa_plugin_commandcode.Stream.Whole.{kept_frames, split_newlines, frames_of-split_newlines}
use cpa_plugin_commandcode.Executor.Run.{StreamResponse}
use cpa_plugin_commandcode.Send.Bodies.{ending}
use cpa_plugin_commandcode.Abi.{next, HostCall, emit_call, close_call, pump_stream}
use cpa_plugin_commandcode.Abi.Calls.{marshal_stream}

-- The calls by which the host is sent frames, and then told why the stream is closed.
abbrev pub delivery : List Bytes × Bytes → List HostCall
delivery (frames, message) = map emit_call frames ++ close_call message ∷ []

module _ (json : Json) where
  apply-full :
      (framing : Framing) (f : Bytes)
      → is_empty (trim_space f) ≡ false
      → is_empty (apply framing f) ≡ false
  unfolding apply trim_space
  apply-full bare [] h = absurd (cc h)
  apply-full bare (x ∷ f) h = refl
  apply-full claude f h = refl

  frames_of-kept_frames :
      (framing : Framing) (lines : List Bytes)
      → frames_of json framing lines ≡ map (λ f. payload (apply framing f)) (kept_frames json lines)
  unfolding frames_of frame_of kept_frames
  frames_of-kept_frames framing [] = refl
  frames_of-kept_frames framing (line ∷ lines) =
      elim (Bool-cases (is_empty (trim_space (normalize_line json line)))) [
        | inl blank ↦ rw blank (frames_of-kept_frames framing lines)
        | inr full ↦ rw full (
            ap (λ t. payload (apply framing (normalize_line json line)) ∷ t)
              (frames_of-kept_frames framing lines))
      ]

  pump_stream-kept :
      (framing : Framing) (lines : List Bytes) (tail : List OutChunk) (message : Bytes) (n : ℕ)
      → ((k : ℕ) → pump_stream (λ j. none) k (map next tail) ≡ close_call message ∷ [])
      → let frames = kept_frames json lines in
        pump_stream (λ j. none) n (map next (map (λ f. payload (apply framing f)) frames ++ tail))
        ≡ delivery (map (apply framing) frames, message)
  unfolding kept_frames pump_stream
  pump_stream-kept framing [] tail message n closes = closes n
  pump_stream-kept framing (line ∷ lines) tail message n closes =
      let frame = normalize_line json line in
      elim (Bool-cases (is_empty (trim_space frame))) [
        | inl blank ↦ rw blank (pump_stream-kept framing lines tail message n closes)
        | inr full ↦
            rw (full, apply-full framing frame full)
              (ap (λ l. emit_call (apply framing frame) ∷ l)
                (pump_stream-kept framing lines tail message (suc n) closes))
      ]

  -- The frames of lines, as they are sent on a route, and those of the lines of a text.
  abbrev pub framed : Framing → List Bytes → List Bytes
  framed framing lines = map (apply framing) (kept_frames json lines)

  -- What the host is sent of a text that ends, or that breaks off with an error: all its lines, or
  -- the complete ones and the error.
  abbrev pub sent_of : Framing → Option Error → Bytes → List Bytes × Bytes
  sent_of framing none t = (framed framing (split_newlines t), [])
  sent_of framing (some e) t =
      if bytes_eq e.text (codes "EOF")
      then (framed framing (split_newlines t), [])
      else (framed framing (split_lines t).0, e.text)

  marshal_stream-delivery :
      (framing : Framing) (lines : List Bytes) (tail : List OutChunk) (message stream_id : Bytes)
      (r : StreamResponse)
      → ((k : ℕ) → pump_stream (λ j. none) k (map next tail) ≡ close_call message ∷ [])
      → is_empty stream_id ≡ false
      → r.chunks ≡ map (λ f. payload (apply framing f)) (kept_frames json lines) ++ tail
      → (marshal_stream (λ j. none) stream_id r).1 ≡ delivery (framed framing lines, message)
  unfolding marshal_stream
  marshal_stream-delivery framing lines tail message stream_id r closes named same = rw named (
      ap (λ (l : List OutChunk). pump_stream (λ j. none) 0 (map next l)) same
      ∙ pump_stream-kept framing lines tail message 0 closes)

  pub marshal_stream-ended :
      (framing : Framing) (t stream_id : Bytes) (r : StreamResponse)
      → is_empty stream_id ≡ false
      → r.chunks
        ≡ frames_of json framing (split_lines t).0 ++ frame_of json framing (split_lines t).1
      → (marshal_stream (λ j. none) stream_id r).1
        ≡ delivery (framed framing (split_newlines t), [])
  unfolding pump_stream
  marshal_stream-ended framing t stream_id r named same =
      marshal_stream-delivery framing (split_newlines t) [] [] stream_id r (λ k. refl) named
        (same ∙ frames_of-split_newlines json framing t ∙ sym (append-nil _))

  pub marshal_stream-sent_of :
      (framing : Framing) (fault : Option Error) (t stream_id : Bytes) (r : StreamResponse)
      → is_empty stream_id ≡ false
      → r.chunks
        ≡ frames_of json framing (split_lines t).0 ++ ending json framing fault (split_lines t).1
      → (marshal_stream (λ j. none) stream_id r).1 ≡ delivery (sent_of framing fault t)
  unfolding pump_stream
  marshal_stream-sent_of framing none t stream_id r named same =
      marshal_stream-ended framing t stream_id r named same
  marshal_stream-sent_of framing (some e) t stream_id r named same =
      elim (Bool-cases (bytes_eq e.text (codes "EOF"))) [
        | inl eof ↦ rw eof (marshal_stream-ended framing t stream_id r named (rw eof at same))
        | inr other ↦
            let lines = (split_lines t).0 in
            let broken_off = rw other at same in
            rw other (
              marshal_stream-delivery framing lines (failure e ∷ []) e.text stream_id r (λ k. refl)
                named
                (broken_off ∙ ap (λ l. l ++ failure e ∷ []) (frames_of-kept_frames framing lines)))
      ]

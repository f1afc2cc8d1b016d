-- ===== src/Stream/Whole.antt =====
-- `normalizeStreamBytes` of executor.go, which handles one raw read, against `convertChunks`.
use cpa_plugin_commandcode.Base.{
  ℕ, Bytes, true, false, List, [], ◌∷◌, ◌++◌, map, is_empty, ◌==◌, if◌then◌else◌, ◌≡◌, refl, sym,
  ap, ◌∙◌, inl, inr, arith, Bool-cases,
}
use cpa_plugin_commandcode.Base.Trim.{trim_space, trim_space-newline}
use cpa_plugin_commandcode.Json.{Json}
use cpa_plugin_commandcode.Stream.{
  Framing, bare, apply, OutChunk, payload, read, split_lines, push_byte, normalize_line, convert,
}
use cpa_plugin_commandcode.Stream.Chunks.{
  frame_of, frames_of, deliver, deliver-read, Fits, convert-deliver,
}

-- A byte in front of a text that is split already.
unfoldable pub push_split : ℕ → List Bytes → List Bytes
push_split c [] = (c ∷ []) ∷ []
push_split c (l ∷ ls) = if c == 10 then [] ∷ l ∷ ls else (c ∷ l) ∷ ls

-- `bytes.Split(raw, "\n")`
unfoldable pub split_newlines : Bytes → List Bytes
unfolding push_split
split_newlines [] = [] ∷ []
split_newlines (c ∷ s) = push_split c (split_newlines s)

-- `bytes.Join(out, "\n")`
unfoldable pub join_lines : List Bytes → Bytes
join_lines [] = []
join_lines (f ∷ []) = f
join_lines (f ∷ g ∷ fs) = f ++ 10 ∷ join_lines (g ∷ fs)

module _ (json : Json) where
  -- The loop of `normalizeStreamBytes`.
  unfoldable pub kept_frames : List Bytes → List Bytes
  kept_frames [] = []
  kept_frames (line ∷ lines) =
      let frame = normalize_line json line in
      let rest = kept_frames lines in if is_empty (trim_space frame) then rest else frame ∷ rest

  -- `normalizeStreamBytes`
  unfoldable pub normalize_stream_bytes : Bytes → Bytes
  unfolding kept_frames split_newlines join_lines
  normalize_stream_bytes raw =
      let out = kept_frames (split_newlines raw) in
      if is_empty (trim_space raw) then raw else if is_empty out then raw else join_lines out

-- A line with its newline.
abbrev ended : Bytes → Bytes
ended l = l ++ 10 ∷ []

-- The two ways of splitting: complete lines hold their newline, or newlines stand between lines.
abbrev Splits : Bytes → Type 0
Splits s =
    (ls : List Bytes) × (split_lines s ≡ (map ended ls, (split_lines s).1))
    × (split_newlines s ≡ ls ++ (split_lines s).1 ∷ [])

push-Splits :
    (c : ℕ) (ls : List Bytes) (left : Bytes)
    → let x = push_byte c (map ended ls, left) in
      (ms : List Bytes) × (x ≡ (map ended ms, x.1))
      × (push_split c (ls ++ left ∷ []) ≡ ms ++ x.1 ∷ [])
unfolding push_byte push_split
push-Splits c [] left = elim (Bool-cases (c == 10)) [
  | inl newline ↦ let same : c ≡ 10 = ground arith in rw same ([] ∷ [], refl, refl)
  | inr other ↦ rw other ([], refl, refl)
]
push-Splits c (l ∷ ls) left = elim (Bool-cases (c == 10)) [
  | inl newline ↦ let same : c ≡ 10 = ground arith in rw same ([] ∷ l ∷ ls, refl, refl)
  | inr other ↦ rw other ((c ∷ l) ∷ ls, refl, refl)
]

split-Splits : (s : Bytes) → Splits s
unfolding split_lines split_newlines
split-Splits [] = ([], refl, refl)
split-Splits (c ∷ s) =
    let (ls, lines, newlines) = split-Splits s in
    let (ms, pushed, split) = push-Splits c ls (split_lines s).1 in
    let same = ap (push_byte c) lines in
    (
      ms,
      same ∙ pushed ∙ ap (λ (x : List Bytes × Bytes). (map ended ms, x.1)) (sym same),
      ap (push_split c) newlines
          ∙ split
          ∙ ap (λ (x : List Bytes × Bytes). ms ++ x.1 ∷ []) (sym same),
    )

module _ (json : Json) where
  normalize_line-newline : (l : Bytes) → normalize_line json (ended l) ≡ normalize_line json l
  unfolding normalize_line
  normalize_line-newline l = rw (trim_space-newline l) refl

  -- The frames of the lines of a text, on any route.
  frames_of-kept :
      (framing : Framing) (ls : List Bytes) (left : Bytes)
      → frames_of json framing (map ended ls) ++ frame_of json framing left
        ≡ map (λ f. payload (apply framing f)) (kept_frames json (ls ++ left ∷ []))
  unfolding frames_of frame_of kept_frames
  frames_of-kept framing [] left =
      elim (Bool-cases (is_empty (trim_space (normalize_line json left)))) [
        | inl blank ↦ rw blank refl
        | inr full ↦ rw full refl
      ]
  frames_of-kept framing (l ∷ ls) left =
      elim (Bool-cases (is_empty (trim_space (normalize_line json l)))) [
        | inl blank ↦ rw (normalize_line-newline l, blank) (frames_of-kept framing ls left)
        | inr full ↦
            rw (normalize_line-newline l, full)
              (ap (λ t. payload (apply framing (normalize_line json l)) ∷ t)
                (frames_of-kept framing ls left))
      ]

  pub frames_of-split_newlines :
      (framing : Framing) (s : Bytes)
      → let x = split_lines s in
        frames_of json framing x.0 ++ frame_of json framing x.1
        ≡ map (λ f. payload (apply framing f)) (kept_frames json (split_newlines s))
  frames_of-split_newlines framing s =
      let x = split_lines s in
      let (ls, lines, newlines) = split-Splits s in
      ap (λ (y : List Bytes × Bytes). frames_of json framing y.0 ++ frame_of json framing x.1) lines
      ∙ frames_of-kept framing ls x.1
      ∙ ap (λ l. map (λ f. payload (apply framing f)) (kept_frames json l)) (sym newlines)

  bare-apply : (fs : List Bytes) → map (λ f. payload (apply bare f)) fs ≡ map payload fs
  unfolding apply
  bare-apply fs = refl

  deliver-end : (left : Bytes) → deliver json bare [] left ≡ frame_of json bare left
  unfolding deliver
  deliver-end left = refl

  -- `normalizeStreamBytes` gives the payloads that `convertChunks` sends for the same read on a bare
  -- route, joined by newlines, or the read itself if there are none. The read is not blank, no line of
  -- it is longer than 4 MiB, and the consumer takes every chunk.
  pub convert-normalize_stream_bytes :
      (raw : Bytes)
      → is_empty (trim_space raw) ≡ false
      → Fits json bare (split_lines raw)
      → (frames : List Bytes) × (convert json bare (λ n. true) 0 (read raw ∷ []) []
          ≡ map payload frames)
        × (normalize_stream_bytes json raw ≡ (if is_empty frames then raw else join_lines frames))
  convert-normalize_stream_bytes raw full fits =
      let x = split_lines raw in
      (
        kept_frames json (split_newlines raw),
        convert-deliver json bare (λ n. true) (λ n. refl) (read raw ∷ []) 0 []
            ∙ deliver-read json bare raw [] [] fits.1
            ∙ ap (λ (t : List OutChunk). frames_of json bare x.0 ++ t) (deliver-end x.1)
            ∙ frames_of-split_newlines bare raw
            ∙ bare-apply (kept_frames json (split_newlines raw)),
        unfold normalize_stream_bytes in rw full refl,
      )

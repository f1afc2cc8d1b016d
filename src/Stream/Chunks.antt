-- ===== src/Stream/Chunks.antt =====
-- What `convertChunks` sends, against a description that knows nothing of reads or sends.
use mathlib.Core.Path.{subst}
use native.Mathlib.Nat.{le_trans}
use cpa_plugin_commandcode.Base.{
  ℕ, suc, ◌≤◌, Bytes, Bool, true, false, List, [], ◌∷◌, ◌++◌, map, length, flatten, is_empty, ltb,
  if◌then◌else◌, All, Lacks, ◌≡◌, refl, sym, ap, ◌∙◌, inl, inr, arith, Bool-cases, append_assoc,
  append-nil,
}
use cpa_plugin_commandcode.Base.Trim.{trim_space}
use cpa_plugin_commandcode.Json.{Json}
use cpa_plugin_commandcode.Stream.{
  Framing, apply, OutChunk, payload, failure, Input, read, broken, cancelled, split_lines,
  max_pending, normalize_line, emit, emit_lines, emit_error, convert,
}
use cpa_plugin_commandcode.Stream.Lines.{
  behind, split_lines-append, split_lines-Lacks, first_length, length-le-first,
  split_lines_of_Lacks,
}

-- `part` is a prefix of `whole`.
abbrev pub IsPrefixOf : List OutChunk → List OutChunk → Type 0
IsPrefixOf part whole = (rest : List OutChunk) × (whole ≡ part ++ rest)

not-ltb : (a b : ℕ) → b ≤ a → ltb a b ≡ false
not-ltb a b h = ground arith

module _ (json : Json) (framing : Framing) where
  -- The chunk of a line, if it has one.
  unfoldable pub frame_of : Bytes → List OutChunk
  frame_of line =
      let frame = normalize_line json line in
      if is_empty (trim_space frame) then [] else payload (apply framing frame) ∷ []

  unfoldable pub frames_of : List Bytes → List OutChunk
  unfolding frame_of
  frames_of [] = []
  frames_of (line ∷ lines) = frame_of line ++ frames_of lines

  -- The chunks for a consumer that takes them all.
  unfoldable pub deliver : List Input → Bytes → List OutChunk
  unfolding frame_of frames_of
  deliver [] pending = frame_of pending
  deliver (cancelled e ∷ _) pending = failure e ∷ []
  deliver (broken _ e ∷ _) pending = failure e ∷ []
  deliver (read p ∷ inputs) pending =
      let (lines, left) = split_lines (pending ++ p) in
      if ltb max_pending (length left)
      then frames_of lines ++ (frame_of left ++ deliver inputs [])
      else frames_of lines ++ deliver inputs left

  frames_of-append : (ls ms : List Bytes) → frames_of (ls ++ ms) ≡ frames_of ls ++ frames_of ms
  unfolding frames_of
  frames_of-append [] ms = refl
  frames_of-append (l ∷ ls) ms =
      ap (λ t. frame_of l ++ t) (frames_of-append ls ms) ∙ sym (append_assoc (frame_of l) _ _)

  -- No line of the text, complete or not, is longer than the buffer may grow.
  abbrev pub Fits : List Bytes × Bytes → Type 0
  Fits (lines, left) = All (λ l. length l ≤ max_pending) lines × (length left ≤ max_pending)

  Fits-behind : (ls : List Bytes) (x : List Bytes × Bytes) → Fits (behind ls x) → Fits x
  Fits-behind [] x h = h
  Fits-behind (l ∷ ls) x ((p, h), q) = Fits-behind ls x (h, q)

  Fits-first : (x : List Bytes × Bytes) → Fits x → first_length x ≤ max_pending
  Fits-first ([], left) h = h.1
  Fits-first (l ∷ ls, left) h = h.0.0

  pub deliver-read :
      (p : Bytes) (inputs : List Input) (pending : Bytes)
      → length (split_lines (pending ++ p)).1 ≤ max_pending
      → let x = split_lines (pending ++ p) in
        deliver (read p ∷ inputs) pending ≡ frames_of x.0 ++ deliver inputs x.1
  unfolding deliver
  deliver-read p inputs pending h =
      let fits : ltb max_pending (length (split_lines (pending ++ p)).1) ≡ false =
        not-ltb max_pending (length (split_lines (pending ++ p)).1) h in
      rw fits

  pub deliver-reads :
      (chunks : List Bytes) (ends : List Input) (pending : Bytes)
      → Lacks 10 pending
      → Fits (split_lines (pending ++ flatten chunks))
      → let x = split_lines (pending ++ flatten chunks) in
        deliver (map read chunks ++ ends) pending ≡ frames_of x.0 ++ deliver ends x.1
  deliver-reads [] ends pending whole h =
      rw (append-nil pending, split_lines_of_Lacks pending whole) (unfold frames_of in refl)
  deliver-reads (c ∷ chunks) ends pending whole h =
      let x = split_lines (pending ++ c) in
      let y = split_lines (x.1 ++ flatten chunks) in
      let same : split_lines (pending ++ (c ++ flatten chunks)) ≡ behind x.0 y =
        ap split_lines (sym (append_assoc pending c (flatten chunks)))
        ∙ split_lines-append (pending ++ c) (flatten chunks) in
      let fits : Fits y = Fits-behind x.0 y (subst Fits same h) in
      let lacks = split_lines-Lacks (pending ++ c) in
      let short : length x.1 ≤ max_pending =
        le_trans (length-le-first x.1 (flatten chunks) lacks) (Fits-first y fits) in
      rw same (
        deliver-read c (map read chunks ++ ends) pending short
        ∙ ap (λ t. frames_of x.0 ++ t) (deliver-reads chunks ends x.1 lacks fits)
        ∙ sym (append_assoc (frames_of x.0) (frames_of y.0) (deliver ends y.1))
        ∙ ap (λ t. t ++ deliver ends y.1) (sym (frames_of-append x.0 y.0)))

  -- What a send adds in front of what follows, for a consumer that takes every chunk.
  module _ (taken : ℕ → Bool) (all : (n : ℕ) → taken n ≡ true) where
    emit-all :
        (n : ℕ) (line : Bytes) (next : ℕ → List OutChunk) (out : List OutChunk)
        → ((m : ℕ) → next m ≡ out)
        → emit json framing taken n (normalize_line json line) next ≡ frame_of line ++ out
    unfolding emit frame_of
    emit-all n line next out h = ground (arith, h n, h (suc n), all n)

    emit_lines-all :
        (n : ℕ) (lines : List Bytes) (next : ℕ → List OutChunk) (out : List OutChunk)
        → ((m : ℕ) → next m ≡ out)
        → emit_lines json framing taken n lines next ≡ frames_of lines ++ out
    unfolding emit_lines frames_of
    emit_lines-all n [] next out h = h n
    emit_lines-all n (line ∷ lines) next out h =
        emit-all n line _ (frames_of lines ++ out) (λ m. emit_lines-all m lines next out h)
        ∙ sym (append_assoc (frame_of line) (frames_of lines) out)

    -- One read, from what is known of the rest.
    convert-read :
        (p : Bytes) (inputs : List Input) (pending : Bytes) (n : ℕ)
        → ((m : ℕ) (q : Bytes) → convert json framing taken m inputs q ≡ deliver inputs q)
        → convert json framing taken n (read p ∷ inputs) pending ≡ deliver (read p ∷ inputs) pending
    unfolding convert deliver
    convert-read p inputs pending n rest =
        let x = split_lines (pending ++ p) in
        elim (Bool-cases (ltb max_pending (length x.1))) [
          | inl long ↦ rw long (emit_lines-all n x.0 _ _ (λ m. emit-all m x.1 _ _ (λ k. rest k [])))
          | inr short ↦ rw short (emit_lines-all n x.0 _ _ (λ m. rest m x.1))
        ]

    pub convert-deliver :
        (inputs : List Input) (n : ℕ) (pending : Bytes)
        → convert json framing taken n inputs pending ≡ deliver inputs pending
    convert-deliver [] n pending =
        unfold convert deliver in
        emit-all n pending (λ _. []) [] (λ _. refl) ∙ append-nil (frame_of pending)
    convert-deliver (cancelled e ∷ _) n pending = unfold convert deliver emit_error in rw (all n)
    convert-deliver (broken _ e ∷ _) n pending = unfold convert deliver emit_error in rw (all n)
    convert-deliver (read p ∷ inputs) n pending =
        convert-read p inputs pending n (λ m q. convert-deliver inputs m q)

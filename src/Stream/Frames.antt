-- ===== src/Stream/Frames.antt =====
-- The form of the chunks: valid JSON, with one prefix on the Claude route and none elsewhere.
use cpa_plugin_commandcode.Base.{
  ℕ, suc, Bytes, codes, Bool, true, false, ◌&&◌, ◌==◌, leb, some, List, [], ◌∷◌, ◌++◌, length,
  is_empty, ltb, All, ◌≡◌, refl, inl, inr, arith, Bool-cases, has_prefix, ◌||◌,
}
use cpa_plugin_commandcode.Base.Trim.{trim_space}
use cpa_plugin_commandcode.Json.{Json}
use cpa_plugin_commandcode.Pool.{Error}
use cpa_plugin_commandcode.Reasoning.{map_reasoning_body}
use cpa_plugin_commandcode.Reasoning.Laws.{map_reasoning_body-keeps}
use cpa_plugin_commandcode.Stream.{
  Framing, bare, claude, apply, OutChunk, payload, failure, Input, read, broken, cancelled,
  split_lines, max_pending, normalize_line, emit, emit_lines, emit_error, convert, data_prefix,
  collapse,
}

-- The bytes with which a value begins in JSON (RFC 8259).
abbrev is_start : ℕ → Bool
is_start x =
    x == b'{'
    || x == b'['
    || x == b'"'
    || x == b'-'
    || (leb b'0' x && leb x b'9')
    || x == b't'
    || x == b'f'
    || x == b'n'

abbrev pub starts : Bytes → Bool
starts [] = false
starts (x ∷ s) = is_start x

-- What the plugin relies on: an edit of a JSON text gives a JSON text, and behind white space a JSON
-- text begins with a value.
pub record JsonLaws (json : Json) : Type 0 where
  pub set_valid :
      (body path value updated : Bytes)
      → json.json_valid body ≡ true
      → json.set_string body path value ≡ some updated
      → json.json_valid updated ≡ true
  pub valid_starts : (body : Bytes) → json.json_valid body ≡ true → starts (trim_space body) ≡ true

-- So it does not begin with "data:".
starts-no_data : (s : Bytes) → starts s ≡ true → has_prefix s data_prefix ≡ false
unfolding has_prefix
starts-no_data [] h = refl
starts-no_data (x ∷ s) h = ground arith

-- A text that is not blank is not empty.
full-trim : (s : Bytes) → is_empty (trim_space s) ≡ false → is_empty s ≡ false
unfolding trim_space
full-trim [] h = h
full-trim (x ∷ s) h = refl

module _ (json : Json) (laws : JsonLaws json) where
  -- The backfill of a valid body is valid.
  pub map_reasoning_body-valid :
      (body : Bytes)
      → json.json_valid body ≡ true
      → json.json_valid (map_reasoning_body json body).0 ≡ true
  map_reasoning_body-valid body h =
      map_reasoning_body-keeps json (λ s. json.json_valid s.0 ≡ true) body
        (λ state i field t updated good done. laws.set_valid state.0 _ t updated good done) h

  -- A line that is let through is valid JSON.
  normalize_line-valid :
      (line : Bytes)
      → is_empty (normalize_line json line) ≡ false
      → json.json_valid (normalize_line json line) ≡ true
  unfolding normalize_line
  normalize_line-valid line h =
      let trimmed = trim_space line in
      let payload = collapse (suc (length trimmed)) trimmed in
      ground (arith, map_reasoning_body-valid payload)

  -- Valid JSON that does not begin with "data:".
  abbrev IsBare : Bytes → Type 0
  IsBare p = (json.json_valid p ≡ true) × (has_prefix (trim_space p) (codes "data:") ≡ false)

  -- A chunk of the framing: such a text behind "data: " for Claude, and bare otherwise. An error is
  -- passed on.
  abbrev pub IsFrame : Framing → OutChunk → Type 0
  IsFrame framing (failure e) = Unit
  IsFrame bare (payload q) = IsBare q
  IsFrame claude (payload q) = (p : Bytes) × (q ≡ codes "data: " ++ p) × IsBare p

  apply-IsFrame :
      (framing : Framing) (p : Bytes) → IsBare p → IsFrame framing (payload (apply framing p))
  unfolding apply
  apply-IsFrame bare p h = h
  apply-IsFrame claude p h = (p, refl, h)

  module _ (framing : Framing) (taken : ℕ → Bool) where
    emit-IsFrame :
        (n : ℕ) (line : Bytes) (next : ℕ → List OutChunk)
        → ((m : ℕ) → All (IsFrame framing) (next m))
        → All (IsFrame framing) (emit json framing taken n (normalize_line json line) next)
    unfolding emit
    emit-IsFrame n line next h =
        let frame = normalize_line json line in
        elim (Bool-cases (is_empty (trim_space frame))) [
          | inl blank ↦ rw blank (h n)
          | inr full ↦ elim (Bool-cases (taken n)) [
            | inl sent ↦
                let good = normalize_line-valid line (full-trim frame full) in
                rw (full, sent)
                  (
                    apply-IsFrame framing frame
                        (good, starts-no_data (trim_space frame) (laws.valid_starts frame good)),
                    h (suc n),
                  )
            | inr lost ↦ rw (full, lost) tt
          ]
        ]

    emit_lines-IsFrame :
        (n : ℕ) (lines : List Bytes) (next : ℕ → List OutChunk)
        → ((m : ℕ) → All (IsFrame framing) (next m))
        → All (IsFrame framing) (emit_lines json framing taken n lines next)
    unfolding emit_lines
    emit_lines-IsFrame n [] next h = h n
    emit_lines-IsFrame n (line ∷ lines) next h =
        emit-IsFrame n line _ (λ m. emit_lines-IsFrame m lines next h)

    emit_error-IsFrame :
        (n : ℕ) (e : Error) → All (IsFrame framing) (emit_error json framing taken n e)
    unfolding emit_error
    emit_error-IsFrame n e = elim (Bool-cases (taken n || taken (suc n))) [
      | inl sent ↦ rw sent (tt, tt)
      | inr lost ↦ rw lost tt
    ]

    read-IsFrame :
        (p : Bytes) (inputs : List Input) (n : ℕ) (pending : Bytes)
        → ((m : ℕ) (q : Bytes) → All (IsFrame framing) (convert json framing taken m inputs q))
        → All (IsFrame framing) (convert json framing taken n (read p ∷ inputs) pending)
    unfolding convert
    read-IsFrame p inputs n pending rest =
        let x = split_lines (pending ++ p) in
        elim (Bool-cases (ltb max_pending (length x.1))) [
          | inl long ↦
              rw long (emit_lines-IsFrame n x.0 _ (λ m. emit-IsFrame m x.1 _ (λ k. rest k [])))
          | inr short ↦ rw short (emit_lines-IsFrame n x.0 _ (λ m. rest m x.1))
        ]

    -- Every chunk that `convertChunks` sends is a frame of the route: valid JSON that does not begin
    -- with "data:", behind exactly one "data: " for Claude and bare otherwise. This holds for any
    -- upstream bytes, stacked prefixes included, any cut into reads, and any consumer.
    pub convert-IsFrame :
        (inputs : List Input) (n : ℕ) (pending : Bytes)
        → All (IsFrame framing) (convert json framing taken n inputs pending)
    convert-IsFrame [] n pending = unfold convert in emit-IsFrame n pending (λ _. []) (λ _. tt)
    convert-IsFrame (cancelled e ∷ _) n pending = unfold convert in emit_error-IsFrame n e
    convert-IsFrame (broken _ e ∷ _) n pending = unfold convert in emit_error-IsFrame n e
    convert-IsFrame (read p ∷ inputs) n pending =
        read-IsFrame p inputs n pending (λ m q. convert-IsFrame inputs m q)

-- ===== src/Reasoning.antt =====
-- reasoning.go: the reasoning text of a response is copied to the field "reasoning_content".
pub mod Itoa
mod Tests
pub mod Laws
pub mod Paths
pub mod Rounds
pub mod Content
pub mod Recorded
use cpa_plugin_commandcode.Base.{
  ℕ, zero, suc, ◌+◌, ◌/◌, ◌%◌, ◌^◌, Bytes, codes, Bool, true, false, not, ◌&&◌, ◌||◌, Option, none,
  some, List, [], ◌∷◌, ◌++◌, flatten, is_empty, ◌==◌, if◌then◌else◌, contains, ℤ, pos, negsuc,
}
use cpa_plugin_commandcode.Base.Trim.{trim_space}
use cpa_plugin_commandcode.Json.{Json}

-- The loop of `itoa`: a digit for each round, written in front of the others. The fuel is the room
-- that the buffer has left.
unfoldable pub digits : ℕ → ℕ → Bytes → Bytes
digits zero i buf = buf
digits (suc room) i buf =
    let rest = digits room (i / 10) ((b'0' + i % 10) ∷ buf) in if i == 0 then buf else rest

-- `itoa`, with its buffer of 20 bytes. The smallest int64 is its own negation, for which the loop
-- makes no round.
unfoldable pub itoa : ℤ → Bytes
unfolding digits
itoa (pos zero) = b'0' ∷ []
itoa (pos (suc n)) = digits 20 (suc n) []
itoa (negsuc n) = b'-' ∷ (if suc n == 2 ^ 63 then [] else digits 20 (suc n) [])

-- The path of the field that is set.
abbrev pub content_path : ℕ → Bytes → Bytes
content_path i field =
    codes "choices." ++ (itoa (pos i) ++ (b'.' ∷ (field ++ codes ".reasoning_content")))

module _ (json : Json) where
  open json use {
    Result, valid, get_bytes, get, exists, is_array, is_object, is_string, text, items, set_string,
  }

  -- The loop over "reasoning_details": the texts that are not blank.
  unfoldable pub detail_texts : List Result → List Bytes
  detail_texts [] = []
  detail_texts (d ∷ ds) =
      let t = text (get d (codes "text")) in
      let rest = detail_texts ds in if is_empty (trim_space t) then rest else t ∷ rest

  -- The texts of the details, none of them if the field is no array.
  unfoldable pub details : Result → List Bytes
  unfolding detail_texts
  details msg =
      let details = get msg (codes "reasoning_details") in
      if is_array details then detail_texts (items details) else []

  -- `reasoningText`; `none` is the result with ok = false.
  unfoldable pub reasoning_text : Result → Option Bytes
  unfolding details
  reasoning_text msg =
      let parts = details msg in
      let r = get msg (codes "reasoning") in
      if is_empty parts
      then (if is_string r && not (is_empty (trim_space (text r))) then some (text r) else none)
      else some (flatten parts)

  -- Whether a message already has a "reasoning_content" that is not blank.
  unfoldable pub has_content : Result → Bool
  has_content msg =
      let existing = get msg (codes "reasoning_content") in
      exists existing && not (is_empty (trim_space (text existing)))

  -- The text that is to be copied for a message, if any.
  unfoldable pub missing_content : Result → Option Bytes
  unfolding reasoning_text has_content
  missing_content msg =
      let text = reasoning_text msg in
      if not (exists msg) || not (is_object msg) then none else elim text [
        | none ↦ none
        | some t ↦ if is_empty t then none else if has_content msg then none else some t
      ]

  -- One round of the inner loop: the body and whether it has changed.
  unfoldable pub backfill_field : ℕ → Result → Bytes → Bytes × Bool → Bytes × Bool
  unfolding missing_content itoa
  backfill_field i choice field (out, changed) = elim (missing_content (get choice field)) [
    | none ↦ (out, changed)
    | some t ↦ elim (set_string out (content_path i field) t) [
      | none ↦ (out, changed)
      | some updated ↦ (updated, true)
    ]
  ]

  -- The loop over the choices, from an index on.
  unfoldable pub backfill_choices : ℕ → List Result → Bytes × Bool → Bytes × Bool
  unfolding backfill_field
  backfill_choices i [] state = state
  backfill_choices i (choice ∷ choices) state =
      backfill_choices (suc i) choices
        (backfill_field i choice (codes "message") (backfill_field i choice (codes "delta") state))

  -- `mapReasoningBody`
  unfoldable pub map_reasoning_body : Bytes → Bytes × Bool
  unfolding backfill_choices
  map_reasoning_body body =
      let choices = get_bytes body (codes "choices") in
      if is_empty body || not (valid body)
      then (body, false)
      else if not (contains body (codes "reasoning"))
      then (body, false)
      else if not (is_array choices)
      then (body, false)
      else backfill_choices 0 (items choices) (body, false)

-- ===== src/Stream/Line.antt =====
-- The loop of `normalizeStreamLine` that collapses stacked prefixes.
use cpa_plugin_commandcode.Base.{
  ℕ, zero, suc, ◌+◌, ◌<◌, Bytes, true, false, [], ◌∷◌, ◌++◌, length, drop, has_prefix, ◌≡◌, refl,
  sym, ◌∙◌, inl, inr, arith, Bool-cases, Bool, codes, not, ◌||◌, is_empty, bytes_eq, if◌then◌else◌,
}
use cpa_plugin_commandcode.Base.Trim.{
  trim_space, length-trim_space, IsTrimmed, trim_space_of_IsTrimmed,
}
use cpa_plugin_commandcode.Json.{Json}
use cpa_plugin_commandcode.Reasoning.{map_reasoning_body}
use cpa_plugin_commandcode.Stream.{data_prefix, collapse, normalize_line}

length-drop_prefix :
    (s : Bytes) → has_prefix s data_prefix ≡ true → length (drop 5 s) + 5 ≡ length s
unfolding has_prefix
length-drop_prefix [] h = absurd (cc)
length-drop_prefix (a ∷ []) h = ground arith
length-drop_prefix (a ∷ b ∷ []) h = ground arith
length-drop_prefix (a ∷ b ∷ c ∷ []) h = ground arith
length-drop_prefix (a ∷ b ∷ c ∷ d ∷ []) h = ground arith
length-drop_prefix (a ∷ b ∷ c ∷ d ∷ e ∷ s) h = omega arith

-- What a round leaves is shorter.
length-collapsed :
    (s : Bytes)
    → has_prefix (trim_space s) data_prefix ≡ true
    → length (trim_space (drop 5 (trim_space s))) < length s
length-collapsed s more =
    let p = trim_space s in
    omega (arith, length-drop_prefix p more, length-trim_space s, length-trim_space (drop 5 p))

collapse-prefix :
    (fuel : ℕ) (s : Bytes)
    → length s < fuel
    → has_prefix (trim_space (collapse fuel s)) data_prefix ≡ false
unfolding collapse
collapse-prefix zero s h = absurd (omega arith)
collapse-prefix (suc fuel) s h = elim (Bool-cases (has_prefix (trim_space s) data_prefix)) [
  | inr done ↦ rw done done
  | inl more ↦ rw more (
      collapse-prefix fuel (trim_space (drop 5 (trim_space s)))
        (omega (arith, length-collapsed s more)))
]

collapse_fuel :
    (fuel other : ℕ) (s : Bytes)
    → length s < fuel
    → length s < other
    → collapse fuel s ≡ collapse other s
unfolding collapse
collapse_fuel zero other s h k = absurd (omega arith)
collapse_fuel (suc fuel) zero s h k = absurd (omega arith)
collapse_fuel (suc fuel) (suc other) s h k =
    elim (Bool-cases (has_prefix (trim_space s) data_prefix)) [
      | inr done ↦ rw done refl
      | inl more ↦ rw more (
          collapse_fuel fuel other (trim_space (drop 5 (trim_space s)))
            (omega (arith, length-collapsed s more)) (omega (arith, length-collapsed s more)))
    ]

-- The loop that collapses stacked prefixes ends by its own test: with more fuel than the line has
-- bytes the result begins with no further prefix, and any other such fuel gives the same.
pub collapse_ends :
    (fuel other : ℕ) (s : Bytes)
    → length s < fuel
    → length s < other
    → (has_prefix (trim_space (collapse fuel s)) data_prefix ≡ false)
      × (collapse fuel s ≡ collapse other s)
collapse_ends fuel other s h k = (collapse-prefix fuel s h, collapse_fuel fuel other s h k)

collapse-stacked :
    (s : Bytes)
    → trim_space (data_prefix ++ s) ≡ data_prefix ++ s
    → collapse (suc (length (data_prefix ++ s))) (data_prefix ++ s)
      ≡ collapse (suc (length (trim_space s))) (trim_space s)
unfolding collapse has_prefix
collapse-stacked s trimmed = rw trimmed (
    collapse_fuel (length (data_prefix ++ s)) (suc (length (trim_space s))) (trim_space s)
      (omega (arith, length-trim_space s)) (omega arith))

-- What follows the loop, from whether the line had a prefix.
abbrev settle : Json → Bool → Bytes → Bytes
settle json prefixed payload =
    let (fixed, ok) = map_reasoning_body json payload in
    if not prefixed
    then []
    else if is_empty payload || bytes_eq payload (codes "[DONE]")
    then []
    else if not (json.json_valid payload)
    then []
    else if ok
    then fixed
    else payload

normalize_line-settle :
    (json : Json) (s trimmed payload : Bytes)
    → trim_space s ≡ trimmed
    → has_prefix trimmed data_prefix ≡ true
    → collapse (suc (length trimmed)) trimmed ≡ payload
    → normalize_line json s ≡ settle json true payload
unfolding normalize_line
normalize_line-settle json s trimmed payload e prefixed collapsed = rw (e, prefixed, collapsed) refl

has_prefix-data_prefix : (s : Bytes) → has_prefix (data_prefix ++ s) data_prefix ≡ true
unfolding has_prefix
has_prefix-data_prefix s = refl

module _ (json : Json) where
  -- A further "data:" in front of a line that has one already does not change what the line becomes,
  -- if the new line has white space at neither end.
  pub normalize_line-data_prefix :
      (s : Bytes)
      → IsTrimmed (data_prefix ++ s)
      → has_prefix (trim_space s) data_prefix ≡ true
      → normalize_line json (data_prefix ++ s) ≡ normalize_line json s
  normalize_line-data_prefix s trimmed prefixed =
      let same = trim_space_of_IsTrimmed (data_prefix ++ s) trimmed in
      normalize_line-settle json (data_prefix ++ s) (data_prefix ++ s) _ same
        (has_prefix-data_prefix s) (collapse-stacked s same)
      ∙ sym (normalize_line-settle json s (trim_space s) _ refl prefixed refl)

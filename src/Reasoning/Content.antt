-- ===== src/Reasoning/Content.antt =====
-- What `mapReasoningBody` writes.
use cpa_plugin_commandcode.Base.{
  ℕ, zero, suc, ◌+◌, ◌<◌, ◌^◌, Bytes, codes, Bool, true, false, some, List, [], ◌∷◌, length,
  get_elem?, contains, has_prefix, ◌≡◌, refl, sym, ap, ◌∙◌, arith,
}
use cpa_plugin_commandcode.Base.Utf8.{valid_utf8}
use cpa_plugin_commandcode.Config.{or_else}
use cpa_plugin_commandcode.Json.{Json}
use cpa_plugin_commandcode.Reasoning.{missing_content, backfill_choices, map_reasoning_body}
use cpa_plugin_commandcode.Reasoning.Rounds.{
  content, SetContent, message, missing, is_text, IsReady, IsRound, choice_round,
  choice_round-IsRound,
}

get_elem?-lt {ℓ} :
    {A : Type ℓ} {a : A} (xs : List A) (k : ℕ) → get_elem? xs k ≡ some a → k < length xs
get_elem?-lt [] k found = absurd (cc found)
get_elem?-lt (x ∷ xs) zero found = omega arith
get_elem?-lt (x ∷ xs) (suc k) found = omega (arith, get_elem?-lt xs k found)

module _ (json : Json) (laws : SetContent json) where
  -- The messages of the choices, from an index on, that are objects are so in the body.
  AreReady : ℕ → List json.Result → Bytes → Type 0
  AreReady i choices body =
      (k : ℕ) (choice : json.Result)
      → get_elem? choices k ≡ some choice
      → IsReady json laws (i + k) choice body

  -- A round leaves the later choices ready.
  round-AreReady :
      (i : ℕ) (c : json.Result) (cs : List json.Result) (state : Bytes × Bool)
      → IsRound json laws i c state.0 (choice_round json laws i c state).0
      → AreReady i (c ∷ cs) state.0
      → AreReady (suc i) cs (choice_round json laws i c state).0
  unfolding AreReady
  round-AreReady i c cs state r ready k choice found b object =
      let next : i + suc k ≡ suc i + k = omega arith in
      let before = ready (suc k) choice found b object in
      r.messages (suc i + k) b ∙ rw next at before

  head-IsReady :
      (i : ℕ) (c : json.Result) (cs : List json.Result) (body : Bytes)
      → AreReady i (c ∷ cs) body
      → IsReady json laws i c body
  unfolding AreReady
  head-IsReady i c cs body ready b object =
      let here : i + 0 ≡ i = omega arith in
      let before = ready 0 c refl b object in rw here at before

  -- The rounds for later choices leave a choice as it is.
  backfill_choices-behind :
      (i : ℕ) (choices : List json.Result) (state : Bytes × Bool) (j : ℕ) (b : Bool)
      → json.valid state.0 ≡ true
      → AreReady i choices state.0
      → i + length choices < 2 ^ 63
      → j < i
      → content json (backfill_choices json i choices state).0 j (message b)
        ≡ content json state.0 j (message b)
  unfolding backfill_choices
  backfill_choices-behind i [] state j b valid ready small h = refl
  backfill_choices-behind i (c ∷ cs) state j b valid ready small h =
      let r = choice_round-IsRound json laws i c state valid (head-IsReady i c cs state.0 ready) in
      backfill_choices-behind (suc i) cs (choice_round json laws i c state) j b r.still_valid
        (round-AreReady i c cs state r ready) (omega arith) (omega arith)
      ∙ r.others j b (omega arith) (omega arith) (λ e. absurd (omega (arith, e)))

  backfill_choices-content :
      (i : ℕ) (choices : List json.Result) (state : Bytes × Bool) (k : ℕ) (choice : json.Result)
      (b : Bool)
      → json.valid state.0 ≡ true
      → AreReady i choices state.0
      → i + length choices < 2 ^ 63
      → get_elem? choices k ≡ some choice
      → is_text json laws (missing json laws choice b) ≡ true
      → content json (backfill_choices json i choices state).0 (i + k) (message b)
        ≡ or_else (missing json laws choice b) (content json state.0 (i + k) (message b))
  unfolding backfill_choices
  backfill_choices-content i [] state k choice b valid ready small found u = absurd (cc found)
  backfill_choices-content i (c ∷ cs) state zero choice b valid ready small found u =
      let here : i + 0 ≡ i = omega arith in
      let same : choice ≡ c = cc found in
      let r = choice_round-IsRound json laws i c state valid (head-IsReady i c cs state.0 ready) in
      rw here (
        backfill_choices-behind (suc i) cs (choice_round json laws i c state) i b r.still_valid
          (round-AreReady i c cs state r ready) (omega arith) (omega arith)
        ∙ r.filled b
            (ap (λ (x : json.Result). is_text json laws (missing json laws x b)) (sym same) ∙ u)
        ∙ ap
            (λ (x : json.Result).
              or_else (missing json laws x b) (content json state.0 i (message b)))
            (sym same))
  backfill_choices-content i (c ∷ cs) state (suc k) choice b valid ready small found u =
      let next : i + suc k ≡ suc i + k = omega arith in
      let r = choice_round-IsRound json laws i c state valid (head-IsReady i c cs state.0 ready) in
      rw next (
        backfill_choices-content (suc i) cs (choice_round json laws i c state) k choice b
          r.still_valid (round-AreReady i c cs state r ready) (omega arith) found u
        ∙ ap (or_else (missing json laws choice b)) (
            r.others (suc i + k) b (omega arith) (omega (arith, get_elem?-lt cs k found))
              (λ e. absurd (omega (arith, e)))))

  -- gjson's array of choices in a body is ready.
  items-AreReady :
      (body : Bytes)
      → let choices = json.get_bytes body (codes "choices") in
        json.valid body ≡ true
        → json.is_array choices ≡ true
        → length (json.items choices) < 2 ^ 63
        → AreReady 0 (json.items choices) body
  unfolding AreReady
  items-AreReady body valid array small k choice found b object =
      let choices = json.items (json.get_bytes body (codes "choices")) in
      let here : 0 + k ≡ k = omega arith in
      rw here (
        laws.get_item body k choice b valid array (omega (arith, get_elem?-lt choices k found))
          found object)

  map_reasoning_body-walk :
      (body : Bytes)
      → json.valid body ≡ true
      → contains body (codes "reasoning") ≡ true
      → json.is_array (json.get_bytes body (codes "choices")) ≡ true
      → map_reasoning_body json body
        ≡ backfill_choices json 0 (json.items (json.get_bytes body (codes "choices"))) (body, false)
  unfolding map_reasoning_body contains has_prefix
  map_reasoning_body-walk [] valid named array = absurd (cc named)
  map_reasoning_body-walk (x ∷ s) valid named array = rw (valid, named, array) refl

  -- A valid body whose choices are an array and that names reasoning anywhere: each message of each
  -- choice gets as its "reasoning_content" the text that is missing there, if this is UTF-8, and keeps
  -- the one that it has where nothing is missing. There are less than 2^63 choices.
  pub map_reasoning_body-content :
      (body : Bytes) (k : ℕ) (choice : json.Result) (b : Bool)
      → let choices = json.get_bytes body (codes "choices") in
        let missing = missing_content json (json.get choice (message b)) in
        json.valid body ≡ true
        → contains body (codes "reasoning") ≡ true
        → json.is_array choices ≡ true
        → length (json.items choices) < 2 ^ 63
        → get_elem? (json.items choices) k ≡ some choice
        → valid_utf8 (or_else missing []) ≡ true
        → content json (map_reasoning_body json body).0 k (message b)
          ≡ or_else missing (content json body k (message b))
  map_reasoning_body-content body k choice b valid named array small found u =
      let choices = json.items (json.get_bytes body (codes "choices")) in
      let here : 0 + k ≡ k = omega arith in
      let filled =
        backfill_choices-content 0 choices (body, false) k choice b valid
          (items-AreReady body valid array small) (omega arith) found u in
      ap (λ (s : Bytes × Bool). content json s.0 k (message b))
        (map_reasoning_body-walk body valid named array)
      ∙ rw here at filled

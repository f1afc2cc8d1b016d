-- ===== src/Reasoning/Rounds.antt =====
-- What one round of `mapReasoningBody` writes, and what the plugin relies on for that.
use cpa_plugin_commandcode.Base.{
  ℕ, ◌<◌, ◌^◌, Bytes, codes, Bool, true, false, Option, some, [], ◌∷◌, ◌++◌, pos, get_elem?, arith,
  ◌≡◌, ◌≢◌, refl, sym, ap, ◌∙◌, inl, inr, Option-cases,
}
use cpa_plugin_commandcode.Base.Utf8.{valid_utf8}
use cpa_plugin_commandcode.Config.{or_else}
use cpa_plugin_commandcode.Json.{Json}
use cpa_plugin_commandcode.Reasoning.{itoa, missing_content, content_path, backfill_field}
use cpa_plugin_commandcode.Reasoning.Paths.{content_path-index, content_path-field}

-- The text of a message's "reasoning_content" in a body.
abbrev pub content : (json : Json) → Bytes → ℕ → Bytes → Bytes
content json body i field = json.text (json.get_bytes body (content_path i field))

-- The two messages that a choice may have.
abbrev pub message : Bool → Bytes
message false = codes "delta"
message true = codes "message"

-- The path of a message.
abbrev message_path : ℕ → Bool → Bytes
message_path i b = codes "choices." ++ (itoa (pos i) ++ (b'.' ∷ message b))

-- Whether a body has a message as an object.
abbrev pub has_message : (json : Json) → Bytes → ℕ → Bool → Bool
has_message json body i b = json.is_object (json.get_bytes body (message_path i b))

-- What the plugin relies on. gjson finds a choice in the array under its index. In valid JSON sjson
-- can set the field of a message that is an object: the body stays valid, the messages that are
-- objects are the same, gjson reads what was set if it is UTF-8, and the field of every other message
-- stays as it was.
pub record SetContent (json : Json) : Type 0 where
  pub get_item :
      (body : Bytes) (i : ℕ) (choice : json.Result) (b : Bool)
      → let choices = json.get_bytes body (codes "choices") in
        json.valid body ≡ true
        → json.is_array choices ≡ true
        → i < 2 ^ 63
        → get_elem? (json.items choices) i ≡ some choice
        → json.is_object (json.get choice (message b)) ≡ true
        → has_message json body i b ≡ true
  pub can_set :
      (body : Bytes) (i : ℕ) (b : Bool) (value : Bytes)
      → json.valid body ≡ true
      → has_message json body i b ≡ true
      → (updated : Bytes) × (json.set_string body (content_path i (message b)) value ≡ some updated)
  pub set_valid :
      (body : Bytes) (i : ℕ) (b : Bool) (value updated : Bytes)
      → json.valid body ≡ true
      → has_message json body i b ≡ true
      → json.set_string body (content_path i (message b)) value ≡ some updated
      → json.valid updated ≡ true
  pub set_messages :
      (body : Bytes) (i j : ℕ) (b other : Bool) (value updated : Bytes)
      → json.valid body ≡ true
      → has_message json body i b ≡ true
      → json.set_string body (content_path i (message b)) value ≡ some updated
      → has_message json updated j other ≡ has_message json body j other
  pub get_set :
      (body : Bytes) (i : ℕ) (b : Bool) (value updated : Bytes)
      → json.valid body ≡ true
      → has_message json body i b ≡ true
      → valid_utf8 value ≡ true
      → json.set_string body (content_path i (message b)) value ≡ some updated
      → content json updated i (message b) ≡ value
  pub get_other :
      (body : Bytes) (i j : ℕ) (b other : Bool) (value updated : Bytes)
      → json.valid body ≡ true
      → has_message json body i b ≡ true
      → content_path i (message b) ≢ content_path j (message other)
      → json.set_string body (content_path i (message b)) value ≡ some updated
      → content json updated j (message other) ≡ content json body j (message other)

module _ (json : Json) (laws : SetContent json) where
  -- The text that a message lacks, and whether it is UTF-8.
  abbrev pub missing : json.Result → Bool → Option Bytes
  missing choice b = missing_content json (json.get choice (message b))

  abbrev pub is_text : Option Bytes → Bool
  is_text t = valid_utf8 (or_else t [])

  -- Text is missing only in a message that is an object.
  missing-object :
      (choice : json.Result) (b : Bool) {t : Bytes}
      → missing choice b ≡ some t
      → json.is_object (json.get choice (message b)) ≡ true
  unfolding missing_content
  missing-object choice b h = ground arith

  -- The messages of the choice that are objects are so in the body.
  abbrev pub IsReady : ℕ → json.Result → Bytes → Type 0
  IsReady i choice body =
      (b : Bool)
      → json.is_object (json.get choice (message b)) ≡ true
      → has_message json body i b ≡ true

  -- A body in which one message was filled in, from what was missing.
  record IsFilled (i : ℕ) (b : Bool) (text : Option Bytes) (before after : Bytes) : Type 0 where
    pub still_valid : json.valid after ≡ true
    pub messages :
        (j : ℕ) (other : Bool) → has_message json after j other ≡ has_message json before j other
    pub filled :
        is_text text ≡ true
        → content json after i (message b) ≡ or_else text (content json before i (message b))
    pub others :
        (j : ℕ) (other : Bool)
        → content_path i (message b) ≢ content_path j (message other)
        → content json after j (message other) ≡ content json before j (message other)

  backfill_field-IsFilled :
      (i : ℕ) (choice : json.Result) (b : Bool) (state : Bytes × Bool)
      → json.valid state.0 ≡ true
      → IsReady i choice state.0
      → IsFilled i b (missing choice b) state.0 (backfill_field json i choice (message b) state).0
  unfolding backfill_field
  backfill_field-IsFilled i choice b (body, changed) valid ready =
      elim (Option-cases (missing choice b)) [
        | inl nothing ↦
            rw (nothing, backfill_field)
              (record {
                still_valid = valid;
                messages = λ j other. refl;
                filled = λ u. refl;
                others = λ j other d. refl;
              })
        | inr (t, lacks) ↦
            let object = ready b (missing-object choice b lacks) in
            let (updated, done) = laws.can_set body i b t valid object in
            rw (lacks, backfill_field)
              (rw done (record {
                still_valid = laws.set_valid body i b t updated valid object done;
                messages =
                    λ j other. laws.set_messages body i j b other t updated valid object done;
                filled = λ u. laws.get_set body i b t updated valid object u done;
                others = λ j other d. laws.get_other body i j b other t updated valid object d done;
              }))
      ]

  -- A body in which both messages of a choice were filled in.
  pub record IsRound (i : ℕ) (choice : json.Result) (before after : Bytes) : Type 0 where
    pub still_valid : json.valid after ≡ true
    pub messages : (j : ℕ) (b : Bool) → has_message json after j b ≡ has_message json before j b
    pub filled :
        (b : Bool)
        → is_text (missing choice b) ≡ true
        → content json after i (message b)
          ≡ or_else (missing choice b) (content json before i (message b))
    pub others :
        (j : ℕ) (b : Bool)
        → i < 2 ^ 63
        → j < 2 ^ 63
        → i ≢ j
        → content json after j (message b) ≡ content json before j (message b)

  filled-twice :
      (i : ℕ) (choice : json.Result) (before between after : Bytes)
      → IsFilled i false (missing choice false) before between
      → IsFilled i true (missing choice true) between after
      → IsRound i choice before after
  filled-twice i choice before between after first second = record {
    still_valid = second.still_valid;
    messages = λ j b. second.messages j b ∙ first.messages j b;
    filled = λ b.
        elim b
          as (λ b.
            is_text (missing choice b) ≡ true
            → content json after i (message b)
              ≡ or_else (missing choice b) (content json before i (message b))) [
                | false ↦
                    λ u. second.others i false (λ e. content_path-field i (sym e)) ∙ first.filled u
                | true ↦ λ u.
                    second.filled u
                    ∙ ap (or_else (missing choice true))
                        (first.others i true (content_path-field i))
              ];
    others = λ j b small small' apart.
        second.others j b
          (λ e. apart (content_path-index i j (message true) (message b) small small' e))
        ∙ first.others j b
            (λ e. apart (content_path-index i j (message false) (message b) small small' e));
  }

  -- One round of the loop over the choices.
  abbrev pub choice_round : ℕ → json.Result → Bytes × Bool → Bytes × Bool
  choice_round i choice state =
      backfill_field json i choice (codes "message")
        (backfill_field json i choice (codes "delta") state)

  pub choice_round-IsRound :
      (i : ℕ) (choice : json.Result) (state : Bytes × Bool)
      → json.valid state.0 ≡ true
      → IsReady i choice state.0
      → IsRound i choice state.0 (choice_round i choice state).0
  choice_round-IsRound i choice state valid ready =
      let first = backfill_field-IsFilled i choice false state valid ready in
      let between = backfill_field json i choice (codes "delta") state in
      filled-twice i choice state.0 between.0 (choice_round i choice state).0 first (
        backfill_field-IsFilled i choice true between first.still_valid
          (λ b object. first.messages i b ∙ ready b object))

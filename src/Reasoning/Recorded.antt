-- ===== src/Reasoning/Recorded.antt =====
-- A JSON library for examples whose bodies record what was set in them, the last one first: a count,
-- and each path and each value behind its length. It has one choice, in which "delta" and "message"
-- lack their "reasoning_content".
use cpa_plugin_commandcode.Base.{
  ℕ, zero, suc, Bytes, codes, true, some, [], ◌∷◌, ◌++◌, length, take, drop, get_or, bytes_eq,
  bytes_eq-eq, bytes_eq_self, if◌then◌else◌, ◌≡◌, ◌≢◌, refl, ap, ◌∙◌, inl, inr, Bool-cases,
}
use cpa_plugin_commandcode.Json.{Json}
use cpa_plugin_commandcode.Reasoning.{content_path}
use cpa_plugin_commandcode.Reasoning.Rounds.{SetContent, message}
use cpa_plugin_commandcode.Toys.{toy_json}

-- A text behind its length, and what a cell and the bytes behind it are.
abbrev cell : Bytes → Bytes → Bytes
cell p s = length p ∷ (p ++ s)

abbrev first_cell : Bytes → Bytes
first_cell s = take (get_or s 0 0) (drop 1 s)

abbrev behind_cell : Bytes → Bytes
behind_cell s = drop (get_or s 0 0) (drop 1 s)

first_cell-cell : (p s : Bytes) → first_cell (cell p s) ≡ p
first_cell-cell [] s = refl
first_cell-cell (x ∷ p) s = ap (λ l. x ∷ l) (first_cell-cell p s)

behind_cell-cell : (p s : Bytes) → behind_cell (cell p s) ≡ s
behind_cell-cell [] s = refl
behind_cell-cell (x ∷ p) s = behind_cell-cell p s

abbrev get_entry : ℕ → Bytes → Bytes → Bytes
get_entry zero s path = []
get_entry (suc n) s path =
    let rest = get_entry n (behind_cell (behind_cell s)) path in
    if bytes_eq (first_cell s) path then first_cell (behind_cell s) else rest

abbrev get_recorded : Bytes → Bytes → Bytes
get_recorded body path = get_entry (get_or body 0 0) (drop 1 body) path

abbrev set_recorded : Bytes → Bytes → Bytes → Bytes
set_recorded body path value = suc (get_or body 0 0) ∷ cell path (cell value (drop 1 body))

get-set_recorded :
    (body path value other : Bytes)
    → get_recorded (set_recorded body path value) other
      ≡ (if bytes_eq path other then value else get_recorded body other)
get-set_recorded body path value other =
    rw
      (
        first_cell-cell path (cell value (drop 1 body)),
        behind_cell-cell path (cell value (drop 1 body)),
        first_cell-cell value (drop 1 body),
        behind_cell-cell value (drop 1 body),
      )
      refl

some-eq {ℓ} : {A : Type ℓ} (x y : A) → some x ≡ some y → x ≡ y
some-eq x y e = cc e

recorded-same :
    (body path value updated : Bytes)
    → some (set_recorded body path value) ≡ some updated
    → get_recorded updated path ≡ value
recorded-same body path value updated done =
    rw (← some-eq _ updated done)
      (get-set_recorded body path value path ∙ rw (bytes_eq_self path) refl)

recorded-other :
    (body path other value updated : Bytes)
    → path ≢ other
    → some (set_recorded body path value) ≡ some updated
    → get_recorded updated other ≡ get_recorded body other
recorded-other body path other value updated apart done =
    rw (← some-eq _ updated done) (get-set_recorded body path value other ∙ missed)
  where
    missed :
        (if bytes_eq path other then value else get_recorded body other) ≡ get_recorded body other
    missed = elim (Bool-cases (bytes_eq path other)) [
      | inl same ↦ absurd (apart (bytes_eq-eq path other same))
      | inr differ ↦ rw differ refl
    ]

abbrev pub recorded_json : Json
recorded_json = record toy_json {
  valid = λ b. true;
  get_bytes = λ b path. get_recorded b path;
  get = λ r path. if bytes_eq path (codes "reasoning_content") then [] else codes "thought";
  exists = λ r. true;
  is_array = λ r. true;
  is_object = λ r. true;
  is_string = λ r. true;
  text = λ r. r;
  items = λ r. [] ∷ [];
  set_string = λ body path value. some (set_recorded body path value);
}

pub recorded_json-SetContent : SetContent recorded_json
recorded_json-SetContent = record {
  get_item = λ body i choice b valid array small found object. refl;
  can_set = λ body i b value valid object. (_, refl);
  set_valid = λ body i b value updated valid object done. refl;
  set_messages = λ body i j b other value updated valid object done. refl;
  get_set = λ body i b value updated valid object u done.
      recorded-same body (content_path i (message b)) value updated done;
  get_other = λ body i j b other value updated valid object apart done.
      recorded-other body (content_path i (message b)) (content_path j (message other)) value
        updated apart done;
}

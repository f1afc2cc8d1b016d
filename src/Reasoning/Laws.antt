-- ===== src/Reasoning/Laws.antt =====
-- The backfill of `mapReasoningBody`: what it keeps, and what the copied text is.
use cpa_plugin_commandcode.Base.{
  ℕ, suc, Bytes, codes, Bool, true, false, some, List, [], ◌∷◌, contains, ◌≡◌, refl, sym, ◌⊎◌, inl,
  inr, arith, Option-cases,
}
use mathlib.Core.Bool.{false≢true}
use cpa_plugin_commandcode.Json.{Json}
use cpa_plugin_commandcode.Reasoning.{
  missing_content, content_path, backfill_field, backfill_choices, map_reasoning_body,
}

module _ (json : Json) where
  -- One edit, or none.
  pub backfill_field-cases :
      (i : ℕ) (choice : json.Result) (field : Bytes) (state : Bytes × Bool)
      → (backfill_field json i choice field state ≡ state)
        ⊎ ((t updated : Bytes) × (missing_content json (json.get choice field) ≡ some t)
            × (json.set_string state.0 (content_path i field) t ≡ some updated)
            × (backfill_field json i choice field state ≡ (updated, true)))
  unfolding backfill_field
  backfill_field-cases i choice field (out, changed) =
      elim (Option-cases (missing_content json (json.get choice field))) [
        | inl e ↦ inl (rw (e, backfill_field))
        | inr (t, e) ↦ elim (Option-cases (json.set_string out (content_path i field) t)) [
          | inl failed ↦ inl (rw (e, backfill_field) (rw failed))
          | inr (updated, done) ↦ inr (t, updated, e, done, rw (e, backfill_field) (rw done))
        ]
      ]

  -- What holds of the body and is kept by each edit holds of the result.
  module _ {ℓ} (P : Bytes × Bool → Type ℓ)
      (keep : (state : Bytes × Bool) (i : ℕ) (field t updated : Bytes)
        → P state
        → json.set_string state.0 (content_path i field) t ≡ some updated
        → P (updated, true)) where
    backfill_field-keeps :
        (i : ℕ) (choice : json.Result) (field : Bytes) (state : Bytes × Bool)
        → P state
        → P (backfill_field json i choice field state)
    backfill_field-keeps i choice field state h = elim (backfill_field-cases i choice field state) [
      | inl same ↦ rw same h
      | inr (t, updated, _, done, edited) ↦ rw edited (keep state i field t updated h done)
    ]

    backfill_choices-keeps :
        (i : ℕ) (choices : List json.Result) (state : Bytes × Bool)
        → P state
        → P (backfill_choices json i choices state)
    unfolding backfill_choices
    backfill_choices-keeps i [] state h = h
    backfill_choices-keeps i (c ∷ cs) state h =
        backfill_choices-keeps (suc i) cs _
          (backfill_field-keeps i c _ _ (backfill_field-keeps i c _ state h))

  -- The early returns, and the walk over the choices.
  pub map_reasoning_body-cases :
      (body : Bytes)
      → let choices = json.get_bytes body (codes "choices") in
        (map_reasoning_body json body ≡ (body, false))
        ⊎ ((json.valid body ≡ true)
            × (contains body (codes "reasoning") ≡ true)
            × (json.is_array choices ≡ true)
            × (map_reasoning_body json body
                ≡ backfill_choices json 0 (json.items choices) (body, false)))
  unfolding map_reasoning_body
  map_reasoning_body-cases body = ground arith

  pub map_reasoning_body-keeps {ℓ} :
      (P : Bytes × Bool → Type ℓ) (body : Bytes)
      → ((state : Bytes × Bool) (i : ℕ) (field t updated : Bytes)
          → P state
          → json.set_string state.0 (content_path i field) t ≡ some updated
          → P (updated, true))
      → P (body, false)
      → P (map_reasoning_body json body)
  map_reasoning_body-keeps P body keep h = elim (map_reasoning_body-cases body) [
    | inl same ↦ rw same h
    | inr (_, _, _, walked) ↦ rw walked (backfill_choices-keeps P keep 0 _ _ h)
  ]

  -- A body that is reported as unchanged is the body that was given.
  pub map_reasoning_body-unchanged :
      (body : Bytes)
      → (map_reasoning_body json body).1 ≡ false
      → (map_reasoning_body json body).0 ≡ body
  map_reasoning_body-unchanged body =
      map_reasoning_body-keeps (λ s. s.1 ≡ false → s.0 ≡ body) body
        (λ state i field t updated _ _ changed. absurd (false≢true (sym changed))) (λ _. refl)

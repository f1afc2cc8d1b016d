-- ===== src/Plugin/Overlap.antt =====
-- What a call may rely on while others go on.
use cpa_plugin_commandcode.Base.{
  ℕ, zero, suc, some, List, [], ◌∷◌, ◌++◌, get_elem?, inl, inr, All, All-append, ◌≡◌, refl, ap, ◌∙◌,
  Option-cases,
}
use cpa_plugin_commandcode.Config.{ApiKeyEntry, PluginConfig, Yaml}
use cpa_plugin_commandcode.Json.{Json}
use cpa_plugin_commandcode.Pool.{Net, members, client_for}
use cpa_plugin_commandcode.Pool.Clients.{Reach, Serves, client_for-Serves}
use cpa_plugin_commandcode.Plugin.{Plugin, build}
use cpa_plugin_commandcode.Plugin.Life.{IsSound, reached-clients}
use cpa_plugin_commandcode.Plugin.Shared.{
  set_elem, Flight, Move, register_move, shutdown_move, begin_move, ask_move, Shared, ask, ask_held,
  move, moves_run,
}

module _ {ℓ} {A : Type ℓ} where
  All-get {κ} :
      (P : A → Type κ) (xs : List A) (k : ℕ) (x : A) → All P xs → get_elem? xs k ≡ some x → P x
  All-get P [] k x h found = absurd (cc found)
  All-get P (y ∷ xs) zero x (p, h) found = let same : y ≡ x = cc found in rw same at p
  All-get P (y ∷ xs) (suc k) x (p, h) found = All-get P xs k x h found

  All-set {κ} :
      (P : A → Type κ) (xs : List A) (k : ℕ) (x : A) → All P xs → P x → All P (set_elem k x xs)
  All-set P [] k x h p = tt
  All-set P (y ∷ xs) zero x (_, h) p = (p, h)
  All-set P (y ∷ xs) (suc k) x (q, h) p = (q, All-set P xs k x h p)

  get-append :
      (xs ys : List A) (k : ℕ) (x : A) → get_elem? xs k ≡ some x → get_elem? (xs ++ ys) k ≡ some x
  get-append [] ys k x found = absurd (cc found)
  get-append (y ∷ xs) ys zero x found = found
  get-append (y ∷ xs) ys (suc k) x found = get-append xs ys k x found

module _ (json : Json) (net : Net) (yaml : Yaml) where
  -- A plugin that keeps its configuration.
  abbrev Keeps : List (Plugin json net yaml) → List (Plugin json net yaml) → Type 0
  Keeps before after =
      (k : ℕ) (p : Plugin json net yaml)
      → get_elem? before k ≡ some p
      → (q : Plugin json net yaml) × (get_elem? after k ≡ some q) × (q.cfg ≡ p.cfg)

  Keeps-set :
      (ps : List (Plugin json net yaml)) (i : ℕ) (p q : Plugin json net yaml)
      → get_elem? ps i ≡ some p
      → q.cfg ≡ p.cfg
      → Keeps ps (set_elem i q ps)
  Keeps-set [] i p q held same k r found = absurd (cc found)
  Keeps-set (x ∷ ps) zero p q held same zero r found =
      let one : p ≡ r = cc (held, found) in
      (q, refl, same ∙ ap (λ (p : Plugin json net yaml). p.cfg) one)
  Keeps-set (x ∷ ps) zero p q held same (suc k) r found = (r, found, refl)
  Keeps-set (x ∷ ps) (suc i) p q held same zero r found = (r, found, refl)
  Keeps-set (x ∷ ps) (suc i) p q held same (suc k) r found = Keeps-set ps i p q held same k r found

  ask-cfg : (f : Flight) (i : ℕ) (p : Plugin json net yaml) → (ask json net yaml f i p).cfg ≡ p.cfg
  unfolding ask
  ask-cfg f i p = elim (Option-cases (get_elem? (members p.cfg f.auth) i)) [
    | inl missing ↦ rw (missing, ask) refl
    | inr (m, found) ↦ rw (found, ask) refl
  ]

  ask-IsSound :
      (f : Flight) (i : ℕ) (p : Plugin json net yaml)
      → IsSound json net yaml p
      → IsSound json net yaml (ask json net yaml f i p)
  unfolding ask
  ask-IsSound f i p h = elim (Option-cases (get_elem? (members p.cfg f.auth) i)) [
    | inl missing ↦ rw (missing, ask) h
    | inr (m, found) ↦
        rw (found, ask)
          (record {
            raw = h.raw;
            parsed = h.parsed;
            reached = Reach.call f.auth i m f.host (rw h.parsed at found) h.reached;
          })
  ]

  -- What holds of one move: sound plugins stay sound, and keep their configuration.
  record IsSafe (before after : List (Plugin json net yaml)) : Type 0 where
    sound : All (IsSound json net yaml) before → All (IsSound json net yaml) after
    keeps : Keeps before after

  IsSafe-same : (ps : List (Plugin json net yaml)) → IsSafe ps ps
  IsSafe-same ps = record { sound = λ h. h; keeps = λ k p found. (p, found, refl) }

  ask_held-IsSafe :
      (f : Flight) (i : ℕ) (ps : List (Plugin json net yaml))
      → IsSafe ps (ask_held json net yaml f i ps)
  unfolding ask_held
  ask_held-IsSafe f i ps = elim (Option-cases (get_elem? ps f.plugin)) [
    | inl missing ↦ rw (missing, ask_held) (IsSafe-same ps)
    | inr (p, found) ↦
        rw (found, ask_held)
          (record {
            sound = λ h.
                All-set (IsSound json net yaml) ps f.plugin (ask json net yaml f i p) h
                  (ask-IsSound f i p (All-get (IsSound json net yaml) ps f.plugin p h found));
            keeps = Keeps-set ps f.plugin p (ask json net yaml f i p) found (ask-cfg f i p);
          })
  ]

  move-IsSafe :
      (m : Move) (s : Shared json net yaml) → IsSafe s.plugins (move json net yaml m s).plugins
  unfolding move build
  move-IsSafe (register_move raw) s = record {
    sound = λ h.
        All-append (IsSound json net yaml) s.plugins (build json net yaml raw ∷ []) h
          (record { raw = raw; parsed = refl; reached = Reach.start }, tt);
    keeps = λ k p found. (p, get-append s.plugins _ k p found, refl);
  }
  move-IsSafe shutdown_move s = IsSafe-same s.plugins
  move-IsSafe (begin_move auth host) s = elim (Option-cases s.current) [
    | inl missing ↦ rw (missing, move) (IsSafe-same s.plugins)
    | inr (k, found) ↦ rw (found, move) (IsSafe-same s.plugins)
  ]
  move-IsSafe (ask_move f i) s = elim (Option-cases (get_elem? s.flights f)) [
    | inl missing ↦ rw (missing, move) (IsSafe-same s.plugins)
    | inr (flight, found) ↦ rw (found, move) (ask_held-IsSafe flight i s.plugins)
  ]

  move-flights :
      (m : Move) (s : Shared json net yaml) (f : ℕ) (flight : Flight)
      → get_elem? s.flights f ≡ some flight
      → get_elem? (move json net yaml m s).flights f ≡ some flight
  unfolding move
  move-flights (register_move raw) s f flight held = held
  move-flights shutdown_move s f flight held = held
  move-flights (begin_move auth host) s f flight held = elim (Option-cases s.current) [
    | inl missing ↦ rw (missing, move) held
    | inr (k, found) ↦ rw (found, move) (get-append s.flights _ f flight held)
  ]
  move-flights (ask_move g i) s f flight held = elim (Option-cases (get_elem? s.flights g)) [
    | inl missing ↦ rw (missing, move) held
    | inr (other, found) ↦ rw (found, move) held
  ]

  moves_run-IsSound :
      (moves : List Move) → All (IsSound json net yaml) (moves_run json net yaml moves).plugins
  unfolding moves_run
  moves_run-IsSound [] = tt
  moves_run-IsSound (m ∷ earlier) =
      let safe = move-IsSafe m (moves_run json net yaml earlier) in
      safe.sound (moves_run-IsSound earlier)

  moves_run-kept :
      (later earlier : List Move) (f k : ℕ) (flight : Flight) (p : Plugin json net yaml)
      → get_elem? (moves_run json net yaml earlier).flights f ≡ some flight
      → get_elem? (moves_run json net yaml earlier).plugins k ≡ some p
      → let s = moves_run json net yaml (later ++ earlier) in
        (get_elem? s.flights f ≡ some flight)
        × ((q : Plugin json net yaml) × (get_elem? s.plugins k ≡ some q) × (q.cfg ≡ p.cfg))
  unfolding moves_run
  moves_run-kept [] earlier f k flight p held found = (held, (p, found, refl))
  moves_run-kept (m ∷ later) earlier f k flight p held found =
      let (flying, (q, there, same)) = moves_run-kept later earlier f k flight p held found in
      let s = moves_run json net yaml (later ++ earlier) in
      let safe = move-IsSafe m s in
      let (r, here, same') = safe.keeps k q there in
      (move-flights m s f flight flying, (r, here, same' ∙ same))

  -- A call that has begun keeps the plugin and the configuration that it took, whatever other calls,
  -- registrations and shutdowns go on around it; and whenever it asks the pool for the client of a
  -- member of its own, it gets one with the transport of that member's proxy, or the host's client,
  -- or the error that there is none.
  pub moves_run-Serves :
      (later earlier : List Move) (f : ℕ) (flight : Flight) (p : Plugin json net yaml)
      (c : PluginConfig) (i : ℕ) (m : ApiKeyEntry)
      → get_elem? (moves_run json net yaml earlier).flights f ≡ some flight
      → get_elem? (moves_run json net yaml earlier).plugins flight.plugin ≡ some p
      → p.cfg ≡ some c
      → get_elem? (members (some c) flight.auth) i ≡ some m
      → let s = moves_run json net yaml (later ++ earlier) in
        (get_elem? s.flights f ≡ some flight)
        × ((q : Plugin json net yaml) × (get_elem? s.plugins flight.plugin ≡ some q)
            × (q.cfg ≡ some c)
            × Serves net c m flight.host (client_for net i m flight.host q.clients).0)
  moves_run-Serves later earlier f flight p c i m held found cfg seen =
      let (flying, (q, there, same)) =
        moves_run-kept later earlier f flight.plugin flight p held found in
      let sound =
        All-get (IsSound json net yaml) (moves_run json net yaml (later ++ earlier)).plugins
          flight.plugin q (moves_run-IsSound (later ++ earlier)) there in
      let reached = reached-clients json net yaml q c (same ∙ cfg) sound in
      (
        flying,
        (q, there, same ∙ cfg, client_for-Serves net c flight.auth i m flight.host seen reached),
      )

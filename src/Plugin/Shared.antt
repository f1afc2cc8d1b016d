-- ===== src/Plugin/Shared.antt =====
-- Calls of the host that overlap: a call takes the plugin that is registered when it begins, and asks
-- its pool for clients while other calls, registrations and the shutdown go on. `currentPlugin` and
-- `handleRegister` of cmd/commandcode/abi.go, and `clientFor` of pool.go, each of which holds its lock
-- from start to end. `RouteModel` leaves a parsed configuration as it is, so it is no move.
use cpa_plugin_commandcode.Base.{
  ℕ, zero, suc, Bytes, Bool, Option, none, some, List, [], ◌∷◌, ◌++◌, length, get_elem?,
}
use cpa_plugin_commandcode.Config.{Yaml}
use cpa_plugin_commandcode.Json.{Json}
use cpa_plugin_commandcode.Pool.{Auth, Net, members, client_for}
use cpa_plugin_commandcode.Plugin.{Plugin, build}

-- The element at an index, replaced.
abbrev pub set_elem {ℓ} : {A : Type ℓ} → ℕ → A → List A → List A
set_elem i a [] = []
set_elem zero a (x ∷ xs) = a ∷ xs
set_elem (suc i) a (x ∷ xs) = x ∷ set_elem i a xs

-- A call that has begun: the plugin that it took, the credentials of its request, and whether that
-- comes with the host's client.
pub record Flight : Type 0 where
  pub plugin : ℕ
  pub auth : Auth
  pub host : Bool

-- What the calls do, one at a time: a registration with its YAML, the shutdown, the beginning of a
-- call, and `clientFor` within the call at an index, for the member at an index of its pool.
pub data Move : Type 0 where
  register_move : Bytes → Move
  shutdown_move : Move
  begin_move : Auth → Bool → Move
  ask_move : ℕ → ℕ → Move

module _ (json : Json) (net : Net) (yaml : Yaml) where
  -- The plugins that were built, the first one first, with the one that is registered and the calls
  -- that have begun. A plugin stays as long as a call holds it.
  pub record Shared : Type 0 where
    pub plugins : List (Plugin json net yaml)
    pub current : Option ℕ
    pub flights : List Flight

  -- `clientFor` on a plugin.
  unfoldable pub ask : Flight → ℕ → Plugin json net yaml → Plugin json net yaml
  unfolding client_for
  ask f i p = elim (get_elem? (members p.cfg f.auth) i) [
    | none ↦ p
    | some m ↦ record p { clients = (client_for net i m f.host p.clients).1 }
  ]

  -- A begun call on the plugin that it holds.
  unfoldable pub ask_held : Flight → ℕ → List (Plugin json net yaml) → List (Plugin json net yaml)
  unfolding ask
  ask_held f i plugins = elim (get_elem? plugins f.plugin) [
    | none ↦ plugins
    | some p ↦ set_elem f.plugin (ask f i p) plugins
  ]

  unfoldable pub move : Move → Shared → Shared
  unfolding build ask_held
  move (register_move raw) s = record s {
    plugins = s.plugins ++ build json net yaml raw ∷ [];
    current = some (length s.plugins);
  }
  move shutdown_move s = record s { current = none }
  move (begin_move auth host) s = elim s.current [
    | none ↦ s
    | some k ↦ record s {
      flights = s.flights ++ record { plugin = k; auth = auth; host = host } ∷ [];
    }
  ]
  move (ask_move f i) s = elim (get_elem? s.flights f) [
    | none ↦ s
    | some flight ↦ record s { plugins = ask_held flight i s.plugins }
  ]

  -- The state after some moves, the last one first.
  unfoldable pub moves_run : List Move → Shared
  unfolding move
  moves_run [] = record { plugins = []; current = none; flights = [] }
  moves_run (m ∷ earlier) = move m (moves_run earlier)

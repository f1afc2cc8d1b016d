-- ===== src/Abi/Memory/Owners.antt =====
-- Who owns the memory of cmd/commandcode/abi.go.
use cpa_plugin_commandcode.Base.{
  ℕ, Bytes, true, Option, none, some, List, [], ◌∷◌, ◌++◌, ◌==◌, ◌≡◌, ◌⊎◌, refl, ap, inl, inr,
  Bool-cases, Option-cases, arith,
}
use mathlib.Core.Path.{subst}
use cpa_plugin_commandcode.Abi.Memory.{Heap, set, CBuffer, nil_buffer, plugin_free}
use cpa_plugin_commandcode.Abi.Memory.Sets.{has_room, has_room-none, free-set}
use cpa_plugin_commandcode.Abi.Memory.Served.{write_full, write_room}
use cpa_plugin_commandcode.Abi.Memory.Lent.{c_string_room}
use cpa_plugin_commandcode.Abi.Memory.Session.{
  Memory, no_memory, keep, Use, write, release, enter, leave, use_memory, memory_run,
}

abbrev pub either : Option Bytes → Option Bytes → Option Bytes
either none n = n
either (some x) n = some x

-- What stands at an address is an answer that the host has, or a name that is out, and not both.
abbrev pub Owned : Option Bytes → Option Bytes → Option Bytes → Type 0
Owned h k n = (h ≡ either k n) × ((k ≡ none) ⊎ (n ≡ none))

abbrev pub AreOwned : Heap → Heap → Heap → Type 0
AreOwned f g n = (a : ℕ) → Owned (f a) (g a) (n a)

-- Everything that is allocated has an owner, and holds what its owner has put there.
abbrev pub IsOwned : Memory → Type 0
IsOwned m = AreOwned m.heap m.held m.names

Owned-write : (raw : Bytes) (k n : Option Bytes) → Owned none k n → Owned (some raw) (some raw) n
Owned-write raw none none h = (refl, inr refl)
Owned-write raw none (some s) h = absurd (cc h.0)
Owned-write raw (some r) n h = absurd (cc h.0)

Owned-release : (raw : Bytes) (h n : Option Bytes) → Owned h (some raw) n → Owned none none n
Owned-release raw h none o = (refl, inl refl)
Owned-release raw h (some s) (_, inl e) = absurd (cc e)
Owned-release raw h (some s) (_, inr e) = absurd (cc e)

Owned-enter : (s : Bytes) (k n : Option Bytes) → Owned none k n → Owned (some s) k (some s)
Owned-enter s none n h = (refl, inl refl)
Owned-enter s (some r) n h = absurd (cc h.0)

Owned-leave : (s : Bytes) (h k : Option Bytes) → Owned h k (some s) → Owned none k none
Owned-leave s h none o = (refl, inl refl)
Owned-leave s h (some r) (_, inl e) = absurd (cc e)
Owned-leave s h (some r) (_, inr e) = absurd (cc e)

same_address : (a q : ℕ) → (a == q) ≡ true → a ≡ q
same_address a q e = ground arith

set-AreOwned-held :
    (f g n : Heap) (a : ℕ) (x y : Option Bytes)
    → AreOwned f g n
    → Owned x y (n a)
    → AreOwned (set a x f) (set a y g) n
set-AreOwned-held f g n a x y owned here q = elim (Bool-cases (a == q)) [
  | inl same ↦ rw same (subst (λ (p : ℕ). Owned x y (n p)) (same_address a q same) here)
  | inr other ↦ rw other (owned q)
]

set-AreOwned-names :
    (f g n : Heap) (a : ℕ) (x z : Option Bytes)
    → AreOwned f g n
    → Owned x (g a) z
    → AreOwned (set a x f) g (set a z n)
set-AreOwned-names f g n a x z owned here q = elim (Bool-cases (a == q)) [
  | inl same ↦ rw same (subst (λ (p : ℕ). Owned x (g p) z) (same_address a q same) here)
  | inr other ↦ rw other (owned q)
]

-- A use that does not fault, and what it leaves.
abbrev pub Goes : Option Memory → Type 0
Goes o = (m : Memory) × (o ≡ some m) × IsOwned m

-- The memory behind an answer that is written.
abbrev written : Memory → Bytes → Option (Option CBuffer × Heap) → Option Memory
written m raw o = elim o [ none ↦ none | some (b, h) ↦ some (keep raw b h m) ]

Owned-named : (s : Bytes) (h k : Option Bytes) → Owned h k (some s) → h ≡ some s
Owned-named s h none o = o.0
Owned-named s h (some r) (_, inl e) = absurd (cc e)
Owned-named s h (some r) (_, inr e) = absurd (cc e)

write-Goes :
    (room : Option ℕ) (raw : Bytes) (m : Memory) → IsOwned m → Goes (use_memory (write room raw) m)
unfolding use_memory
write-Goes room [] m owned = (m, refl, owned)
write-Goes none (x ∷ raw) m owned = (m, refl, owned)
write-Goes (some a) (x ∷ raw) m owned = elim (Bool-cases (has_room (some a) m.heap)) [
  | inl found ↦
      let empty = has_room-none a m.heap found in
      (
        record m { heap = set a (some (x ∷ raw)) m.heap; held = set a (some (x ∷ raw)) m.held },
        ap (written m (x ∷ raw)) (write_room a nil_buffer x raw m.heap empty),
        set-AreOwned-held m.heap m.held m.names a _ _ owned (
            Owned-write (x ∷ raw) (m.held a) (m.names a)
              (subst (λ o. Owned o (m.held a) (m.names a)) empty (owned a))),
      )
  | inr full ↦
      (m, ap (written m (x ∷ raw)) (write_full (some a) nil_buffer x raw m.heap full), owned)
]

release-Goes : (ptr : Option ℕ) (m : Memory) → IsOwned m → Goes (use_memory (release ptr) m)
unfolding use_memory plugin_free
release-Goes none m owned = (m, refl, owned)
release-Goes (some a) m owned = elim (Option-cases (m.held a)) [
  | inl other ↦ (m, rw (use_memory, other) refl, owned)
  | inr (raw, mine) ↦
      let here = subst (λ o. Owned (m.heap a) o (m.names a)) mine (owned a) in
      (
        record m { heap = set a none m.heap; held = set a none m.held },
        rw (use_memory, mine) (rw (free-set a raw m.heap here.0) refl),
        set-AreOwned-held m.heap m.held m.names a none none owned
            (Owned-release raw (m.heap a) (m.names a) here),
      )
]

enter-Goes :
    (a : ℕ) (method : Bytes) (m : Memory) → IsOwned m → Goes (use_memory (enter a method) m)
unfolding use_memory
enter-Goes a method m owned = elim (Option-cases (m.heap a)) [
  | inl empty ↦
      let s = method ++ 0 ∷ [] in
      (
        record m { heap = set a (some s) m.heap; names = set a (some s) m.names },
        rw (use_memory, empty) (rw (c_string_room a method m.heap empty) refl),
        set-AreOwned-names m.heap m.held m.names a (some s) (some s) owned (
            Owned-enter s (m.held a) (m.names a)
              (subst (λ o. Owned o (m.held a) (m.names a)) empty (owned a))),
      )
  | inr (block, full) ↦ (m, rw (use_memory, full) refl, owned)
]

leave-Goes : (a : ℕ) (m : Memory) → IsOwned m → Goes (use_memory (leave a) m)
unfolding use_memory
leave-Goes a m owned = elim (Option-cases (m.names a)) [
  | inl other ↦ (m, rw (use_memory, other) refl, owned)
  | inr (s, out) ↦
      let here = subst (λ o. Owned (m.heap a) (m.held a) o) out (owned a) in
      (
        record m { heap = set a none m.heap; names = set a none m.names },
        rw (use_memory, out) (rw (free-set a s m.heap (Owned-named s _ _ here)) refl),
        set-AreOwned-names m.heap m.held m.names a none none owned
            (Owned-leave s (m.heap a) (m.held a) here),
      )
]

use_memory-Goes : (u : Use) (m : Memory) → IsOwned m → Goes (use_memory u m)
use_memory-Goes (write room raw) m owned = write-Goes room raw m owned
use_memory-Goes (release ptr) m owned = release-Goes ptr m owned
use_memory-Goes (enter a method) m owned = enter-Goes a method m owned
use_memory-Goes (leave a) m owned = leave-Goes a m owned

memory_run-Goes : (us : List Use) (m : Memory) → IsOwned m → Goes (memory_run us m)
unfolding memory_run
memory_run-Goes [] m owned = (m, refl, owned)
memory_run-Goes (u ∷ us) m owned =
    let (m', e, owned') = use_memory-Goes u m owned in
    let (m'', e', owned'') = memory_run-Goes us m' owned' in (m'', rw (memory_run, e) e', owned'')

-- Whatever the answers, the frees and the calls of the host are and in whichever order they come, as
-- long as the host frees only answers that it has, no access to memory faults and nothing is freed
-- twice; and at any time what is allocated is exactly the answers that the host has not freed, each
-- with its bytes, and the names that calls of the host have out.
pub memory_run-IsOwned :
    (us : List Use) → (m : Memory) × (memory_run us no_memory ≡ some m) × IsOwned m
memory_run-IsOwned us = memory_run-Goes us no_memory (λ a. (refl, inl refl))

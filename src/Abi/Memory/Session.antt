-- ===== src/Abi/Memory/Session.antt =====
-- The memory of cmd/commandcode/abi.go over a whole run: answers that the host keeps and frees in any
-- order, while calls of the host, on any number of goroutines, go on between them.
use cpa_plugin_commandcode.Base.{ℕ, Bytes, Option, none, some, List, [], ◌∷◌, ◌++◌}
use cpa_plugin_commandcode.Abi.Memory.{
  Heap, set, free, CBuffer, nil_buffer, write_abi_response, plugin_free, c_string,
}

-- The memory of the plugin, the answers that the host has and has not freed, and the names of methods
-- that calls of the host have out, all by address.
pub record Memory : Type 0 where
  pub heap : Heap
  pub held : Heap
  pub names : Heap

abbrev pub no_memory : Memory
no_memory = record { heap = λ a. none; held = λ a. none; names = λ a. none }

-- What uses memory: an answer is written, where malloc finds room, and kept by the host; the host
-- frees an answer that it has, at an address or nil; `callHost` begins; and it ends, with the copy of
-- the method's name at an address. An address that malloc would not give, or that is not one to free,
-- is passed over.
pub data Use : Type 0 where
  write : Option ℕ → Bytes → Use
  release : Option ℕ → Use
  enter : ℕ → Bytes → Use
  leave : ℕ → Use

-- The host keeps what it finds in its buffer.
abbrev pub keep : Bytes → Option CBuffer → Heap → Memory → Memory
keep raw none h m = record m { heap = h }
keep raw (some b) h m = elim b.ptr [
  | none ↦ record m { heap = h }
  | some a ↦ record m { heap = h; held = set a (some raw) m.held }
]

-- One use, `none` for an access that faults, such as a second free.
unfoldable pub use_memory : Use → Memory → Option Memory
unfolding write_abi_response plugin_free c_string free
use_memory (write room raw) m = elim (write_abi_response room (some nil_buffer) raw m.heap) [
  | none ↦ none
  | some (b, h) ↦ some (keep raw b h m)
]
use_memory (release none) m = elim (plugin_free none m.heap) [
  | none ↦ none
  | some h ↦ some (record m { heap = h })
]
use_memory (release (some a)) m = elim (m.held a) [
  | none ↦ some m
  | some raw ↦ elim (plugin_free (some a) m.heap) [
    | none ↦ none
    | some h ↦ some (record m { heap = h; held = set a none m.held })
  ]
]
use_memory (enter a method) m = elim (m.heap a) [
  | some block ↦ some m
  | none ↦ elim (c_string (some a) method m.heap) [
    | none ↦ none
    | some (p, h) ↦ some (record m { heap = h; names = set p (some (method ++ 0 ∷ [])) m.names })
  ]
]
use_memory (leave a) m = elim (m.names a) [
  | none ↦ some m
  | some s ↦ elim (free a m.heap) [
    | none ↦ none
    | some h ↦ some (record m { heap = h; names = set a none m.names })
  ]
]

unfoldable pub memory_run : List Use → Memory → Option Memory
unfolding use_memory
memory_run [] m = some m
memory_run (u ∷ us) m = elim (use_memory u m) [ none ↦ none | some m' ↦ memory_run us m' ]

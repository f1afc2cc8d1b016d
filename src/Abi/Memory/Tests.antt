-- ===== src/Abi/Memory/Tests.antt =====
-- Examples for the theorems about memory.
use cpa_plugin_commandcode.Base.{
  ℕ, ◌≤◌, ◌^◌, ◌%◌, codes, Bytes, Option, none, some, List, [], ◌∷◌, length, true, ◌⊎◌, inr, ℤ, pos,
  ◌≡◌, refl, arith,
}
use cpa_plugin_commandcode.Pool.{Error}
use cpa_plugin_commandcode.Toys.{toy_json, toy_net, toy_yaml, toy_wire, toy_world}
use cpa_plugin_commandcode.Abi.Calls.{HostEnvelope, call_host}
use cpa_plugin_commandcode.Abi.Wire.{register}
use cpa_plugin_commandcode.Abi.Exports.{AbiState, plugin_call}
use cpa_plugin_commandcode.Abi.Memory.{Heap, set, zeros, CBuffer, nil_buffer, plugin_call_in}
use cpa_plugin_commandcode.Abi.Memory.Table.{HostTable, call_host_in}
use cpa_plugin_commandcode.Abi.Memory.Sets.{length-zeros}
use cpa_plugin_commandcode.Abi.Memory.Served.{
  Answers, plugin_call_in-plugin_call, plugin_call_in_large,
}
use cpa_plugin_commandcode.Abi.Memory.Lent.{IsLoan, HostLaws, call_host_in-call_host}
use cpa_plugin_commandcode.Abi.Memory.Session.{
  Memory, no_memory, Use, write, release, enter, leave, memory_run,
}
use cpa_plugin_commandcode.Abi.Memory.Owners.{IsOwned, memory_run-IsOwned}

abbrev empty : Heap
empty a = none

abbrev fresh : AbiState toy_json toy_net toy_yaml
fresh = record { host = none; plugin = none }

plugin_call_in-plugin_call_example :
    let (o, calls, s') =
      plugin_call_in
        (toy_wire register)
        toy_json
        toy_net
        toy_yaml
        toy_world
        (λ n. none)
        (some 7)
        (some nil_buffer)
        (some (codes "r"))
        (some (codes "enabled: true"))
        13
        fresh
        empty in
    let (answer, calls', s'') =
      plugin_call
        (toy_wire register)
        toy_json
        toy_net
        toy_yaml
        toy_world
        (λ n. none)
        true
        (some (codes "r"))
        (codes "enabled: true")
        fresh in
    Answers o answer empty × (calls ≡ calls') × (s' ≡ s'')
plugin_call_in-plugin_call_example =
    plugin_call_in-plugin_call (toy_wire register) toy_json toy_net toy_yaml toy_world (λ n. none)
      (some 7) (some nil_buffer) (some (codes "r")) (codes "enabled: true") fresh empty
      (omega arith)

abbrev large : Bytes
large = zeros (2 ^ 31)

large-length : 2 ^ 31 ≤ length large % 2 ^ 32
large-length = omega (arith, length-zeros (2 ^ 31))

plugin_call_in_large_example :
    plugin_call_in
      (toy_wire register)
      toy_json
      toy_net
      toy_yaml
      toy_world
      (λ n. none)
      none
      none
      (some (codes "r"))
      (some large)
      (length large)
      fresh
      empty
    ≡ (none, [], fresh)
plugin_call_in_large_example =
    plugin_call_in_large (toy_wire register) toy_json toy_net toy_yaml toy_world (λ n. none) none
      none (codes "r") large fresh empty large-length

-- A host that has room for one buffer.
abbrev lend : Option Bytes → Heap → ℤ × CBuffer × Heap
lend none h = (pos 0, record { ptr = some 5; len = 2 }, set 5 (some (codes "ok")) h)
lend (some block) h = (pos 0, nil_buffer, h)

lend-IsLoan :
    (o : Option Bytes) (h : Heap)
    → h 5 ≡ o
    → let (code, b, h') = lend o h in IsLoan h b.ptr b.len h'
lend-IsLoan none h room = (codes "ok", room, refl, refl, omega arith)
lend-IsLoan (some block) h full = (refl, refl)

abbrev table : HostTable
table = record { call = λ method request h. lend (h 5) h; free_buffer = λ a n h. set a none h }

table-HostLaws : HostLaws table
table-HostLaws = record {
  lends = λ method request h. lend-IsLoan (h 5) h refl;
  frees = λ a n h. refl;
}

abbrev open_envelope_of : Bytes → Error ⊎ HostEnvelope
open_envelope_of b = inr (record { good = true; result = b; message = none })

call_host_in-call_host_example :
    call_host_in open_envelope_of
      (λ (b : Bytes). inr b)
      []
      (some 3)
      (some table)
      (codes "m")
      (inr (codes "r"))
      empty
      empty
    ≡ some (inr (codes "ok"), empty, empty)
unfolding call_host
call_host_in-call_host_example =
    call_host_in-call_host open_envelope_of (λ (b : Bytes). inr b) [] table 3 (codes "m")
      (inr (codes "r")) empty empty table-HostLaws refl

-- Two answers, of which the first is freed while a call of the host is out, and a second free.
abbrev run_of_uses : List Use
run_of_uses =
    write (some 1) (codes "a")
    ∷ enter 2 (codes "m")
    ∷ write (some 3) (codes "b")
    ∷ release (some 1)
    ∷ release (some 1)
    ∷ leave 2
    ∷ []

memory_run-IsOwned_example : (m : Memory) × (memory_run run_of_uses no_memory ≡ some m) × IsOwned m
memory_run-IsOwned_example = memory_run-IsOwned run_of_uses

abbrev heap_at : ℕ → Option Memory → Option Bytes
heap_at a none = none
heap_at a (some m) = m.heap a

-- What is left is the second answer.
left_over : heap_at 3 (memory_run run_of_uses no_memory) ≡ some (codes "b")
unfolding memory_run zeros
left_over = refl

-- ===== src/Abi/Memory.antt =====
-- The memory that cmd/commandcode/abi.go shares with the host: the buffers of answers, the names of
-- methods that callHost passes on, and the buffers that the host lends it.
pub mod Table
pub mod Sets
pub mod Lengths
pub mod Served
pub mod Lent
pub mod Session
pub mod Owners
mod Tests
use cpa_plugin_commandcode.Base.{
  ℕ, zero, suc, ◌-◌, ◌%◌, ◌^◌, Bytes, codes, Bool, true, false, not, Option, none, some, List, [],
  ◌∷◌, ◌++◌, ◌⊎◌, inl, inr, length, take, drop, is_empty, ltb, ◌==◌, ◌||◌, if◌then◌else◌, ℤ, pos,
  negsuc,
}
use cpa_plugin_commandcode.Config.{Yaml}
use cpa_plugin_commandcode.Json.{Json}
use cpa_plugin_commandcode.Pool.{Error, plain_error, Net}
use cpa_plugin_commandcode.Reasoning.{itoa}
use cpa_plugin_commandcode.Executor.Run.{World}
use cpa_plugin_commandcode.Abi.{HostCall, error, error_envelope}
use cpa_plugin_commandcode.Abi.Calls.{HostEnvelope, is_zero, read_answer}
use cpa_plugin_commandcode.Abi.Wire.{Wire, Handled, replied, refused, crashed, error_bytes}
use cpa_plugin_commandcode.Abi.Dispatch.{handle_method}
use cpa_plugin_commandcode.Abi.Exports.{AbiState}

-- What is allocated, by address.
abbrev pub Heap : Type 0
Heap = ℕ → Option Bytes

abbrev pub set : ℕ → Option Bytes → Heap → Heap
set a block h q = if a == q then block else h q

unfoldable pub zeros : ℕ → Bytes
zeros zero = []
zeros (suc n) = 0 ∷ zeros n

-- `malloc`: where the allocator finds room, if it does; it never gives memory that is in use. What the
-- memory holds at first does not matter.
unfoldable pub malloc : Option ℕ → ℕ → Heap → Option ℕ × Heap
malloc none n h = (none, h)
malloc (some a) n h = elim (h a) [
  | some block ↦ (none, h)
  | none ↦ (some a, set a (some (zeros n)) h)
]

-- `memcpy` into an address; a fault, `none`, if nothing or too little is allocated there.
unfoldable pub memcpy : ℕ → Bytes → Heap → Option Heap
memcpy a raw h = elim (h a) [
  | none ↦ none
  | some block ↦
      if ltb (length block) (length raw)
      then none
      else some (set a (some (raw ++ drop (length raw) block)) h)
]

-- `free`; a fault if nothing is allocated there.
unfoldable pub free : ℕ → Heap → Option Heap
free a h = elim (h a) [ none ↦ none | some block ↦ some (set a none h) ]

-- The conversion of a `size_t` to a `C.int` of 32 bits.
unfoldable pub c_int : ℕ → ℤ
c_int n = let m = n % 2 ^ 32 in if ltb m (2 ^ 31) then pos m else negsuc (2 ^ 32 - 1 - m)

-- `C.GoBytes` on what stands at an address: a panic or a fault, `none`, if the length is negative or
-- there are fewer bytes.
unfoldable pub go_bytes : Bytes → ℤ → Option Bytes
go_bytes block (negsuc n) = none
go_bytes block (pos n) = if ltb (length block) n then none else some (take n block)

-- cliproxy_buffer
pub record CBuffer : Type 0 where
  pub ptr : Option ℕ
  pub len : ℕ

abbrev pub nil_buffer : CBuffer
nil_buffer = record { ptr = none; len = 0 }

-- What the caller finds in a buffer.
unfoldable pub buffer_bytes : Heap → CBuffer → Option Bytes
buffer_bytes h b = elim b.ptr [
  | none ↦ none
  | some a ↦ elim (h a) [
    | none ↦ none
    | some block ↦ if ltb (length block) b.len then none else some (take b.len block)
  ]
]

-- A copy of bytes in memory that malloc has given, if it has.
unfoldable pub copy_into : Bytes → Option ℕ × Heap → Option (Option ℕ × Heap)
unfolding memcpy
copy_into raw (none, h) = some (none, h)
copy_into raw (some a, h) = elim (memcpy a raw h) [ none ↦ none | some h' ↦ some (some a, h') ]

-- The buffer of a copy, nil without one.
unfoldable pub buffer_of : ℕ → Option (Option ℕ × Heap) → Option (Option CBuffer × Heap)
buffer_of n none = none
buffer_of n (some (none, h)) = some (some nil_buffer, h)
buffer_of n (some (some a, h)) = some (some (record { ptr = some a; len = n }), h)

-- `writeABIResponse` into a buffer that may be nil: `room` is where malloc finds room.
unfoldable pub write_abi_response :
    Option ℕ → Option CBuffer → Bytes → Heap → Option (Option CBuffer × Heap)
unfolding malloc copy_into buffer_of
write_abi_response room none raw h = some (none, h)
write_abi_response room (some b) [] h = some (some nil_buffer, h)
write_abi_response room (some b) (x ∷ raw) h =
    let n = suc (length raw) in buffer_of n (copy_into (x ∷ raw) (malloc room n h))

-- `CommandCodePluginFree`
unfoldable pub plugin_free : Option ℕ → Heap → Option Heap
unfolding free
plugin_free none h = some h
plugin_free (some a) h = free a h

-- The address of a copy; without one the process ends.
unfoldable pub address_of : Option (Option ℕ × Heap) → Option (ℕ × Heap)
address_of none = none
address_of (some (none, h)) = none
address_of (some (some a, h)) = some (a, h)

-- `C.CString`: a copy with a zero behind it.
unfoldable pub c_string : Option ℕ → Bytes → Heap → Option (ℕ × Heap)
unfolding malloc copy_into address_of
c_string room s h = let raw = s ++ 0 ∷ [] in address_of (copy_into raw (malloc room (length raw) h))

-- The request that `CommandCodePluginCall` sees: what stands at the pointer, if it is not nil, and the
-- length that comes with it.
unfoldable pub request_bytes : Option Bytes → ℕ → Option Bytes
unfolding go_bytes c_int
request_bytes none n = some []
request_bytes (some block) n = if n == 0 then some [] else go_bytes block (c_int n)

-- The answer in the host's buffer.
unfoldable pub put_answer :
    Option ℕ → Option CBuffer → Option (ℕ × Bytes) → Heap → Option (ℕ × Option CBuffer × Heap)
unfolding write_abi_response
put_answer room response none h = none
put_answer room response (some (code, raw)) h = elim (write_abi_response room response raw h) [
  | none ↦ none
  | some (b, h') ↦ some (code, b, h')
]

module _ (wire : Wire) where
  -- Code and bytes of the answer of a call; a panic ends the process.
  unfoldable pub raw_answer : Handled → Option (ℕ × Bytes)
  unfolding error_bytes error_envelope
  raw_answer (replied raw) = some (0, raw)
  raw_answer (refused e) = some (1, error_bytes wire (error_envelope (codes "plugin_error") e))
  raw_answer crashed = none

  module _ (json : Json) (net : Net) (yaml : Yaml) where
    -- The end of `CommandCodePluginCall` on memory, on the request that it reads; where it cannot be
    -- read the process ends.
    unfoldable pub serve_request :
        World net
        → (ℕ → Option Error)
        → Option ℕ
        → Option CBuffer
        → Bytes
        → Option Bytes
        → AbiState json net yaml
        → Heap
        → Option (ℕ × Option CBuffer × Heap) × List HostCall × AbiState json net yaml
    unfolding put_answer raw_answer handle_method
    serve_request world emit_error room response name none s h = (none, [], s)
    serve_request world emit_error room response name (some request) s h =
        let (answer, calls, plugin) =
          handle_method wire json net yaml world emit_error (wire.method_of name) name request
            s.plugin in
        (put_answer room response (raw_answer answer) h, calls, record s { plugin = plugin })

    -- `CommandCodePluginCall` on memory: code, buffer and memory, the calls of the host that follow, and
    -- the state.
    unfoldable pub plugin_call_in :
        World net
        → (ℕ → Option Error)
        → Option ℕ
        → Option CBuffer
        → Option Bytes
        → Option Bytes
        → ℕ
        → AbiState json net yaml
        → Heap
        → Option (ℕ × Option CBuffer × Heap) × List HostCall × AbiState json net yaml
    unfolding put_answer request_bytes serve_request
    plugin_call_in world emit_error room response none request n s h = (
      put_answer room response
          (some
            (1, error_bytes wire (error (codes "invalid_method") (codes "method is required") 0)))
          h,
      [],
      s,
    )
    plugin_call_in world emit_error room response (some name) request n s h =
        serve_request world emit_error room response name (request_bytes request n) s h

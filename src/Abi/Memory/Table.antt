-- ===== src/Abi/Memory/Table.antt =====
-- `callHost` of cmd/commandcode/abi.go on the memory of the plugin and that of the host.
use cpa_plugin_commandcode.Base.{
  ℕ, Bytes, codes, Option, none, some, [], ◌⊎◌, inl, inr, ◌==◌, if◌then◌else◌, ℤ,
}
use cpa_plugin_commandcode.Pool.{Error, plain_error}
use cpa_plugin_commandcode.Abi.Calls.{HostEnvelope, is_zero, read_answer}
use cpa_plugin_commandcode.Abi.Memory.{Heap, free, c_int, go_bytes, CBuffer, c_string}

-- cliproxy_host_api: `call` takes a method and a request and gives a code and a buffer in the host's
-- memory, which `free_buffer` gives back.
pub record HostTable : Type 0 where
  pub call : Bytes → Bytes → Heap → ℤ × CBuffer × Heap
  pub free_buffer : ℕ → ℕ → Heap → Heap

-- `C.GoBytes` on a buffer of the host.
unfoldable pub host_bytes : CBuffer → Heap → Option Bytes
unfolding go_bytes c_int
host_bytes b h = elim b.ptr [
  | none ↦ if b.len == 0 then some [] else none
  | some a ↦ elim (h a) [ none ↦ none | some block ↦ go_bytes block (c_int b.len) ]
]

-- The deferred `commandcode_free_host_buffer`.
unfoldable pub give_back : HostTable → CBuffer → Heap → Heap
give_back t b h = elim b.ptr [ none ↦ h | some a ↦ t.free_buffer a b.len h ]

module _ {A : Type 0} (unmarshal_envelope : Bytes → Error ⊎ HostEnvelope)
    (unmarshal : Bytes → Error ⊎ A) (zero_value : A) where
  -- What `callHost` makes of the host's code and buffer.
  unfoldable pub read_answer_in : Bytes → ℤ → CBuffer → Heap → Option (Error ⊎ A)
  unfolding read_answer host_bytes
  read_answer_in method code b h =
      if is_zero code
      then elim (host_bytes b h) [
        | none ↦ none
        | some raw ↦
            some (read_answer unmarshal_envelope unmarshal zero_value method code (some raw))
      ]
      else some (read_answer unmarshal_envelope unmarshal zero_value method code none)

  -- The end of `callHost`, behind the call of the host: the deferred calls run in reverse order.
  unfoldable pub leave_host :
      HostTable → Bytes → ℕ → Heap → ℤ × CBuffer × Heap → Option ((Error ⊎ A) × Heap × Heap)
  unfolding read_answer_in give_back free
  leave_host t method a own (code, b, theirs) = elim (read_answer_in method code b theirs) [
    | none ↦ none
    | some result ↦
        let theirs' = give_back t b theirs in
        elim (free a own) [ none ↦ none | some own' ↦ some (result, own', theirs') ]
  ]

  -- `callHost` on the memory of the plugin and that of the host: `room` is where the copy of the
  -- method's name finds room.
  unfoldable pub call_host_in :
      Option ℕ
      → Option HostTable
      → Bytes
      → Error ⊎ Bytes
      → Heap
      → Heap
      → Option ((Error ⊎ A) × Heap × Heap)
  unfolding c_string leave_host
  call_host_in room none method request own theirs =
      some (inl (plain_error (codes "host callback is unavailable")), own, theirs)
  call_host_in room (some t) method (inl e) own theirs = some (inl e, own, theirs)
  call_host_in room (some t) method (inr request) own theirs = elim (c_string room method own) [
    | none ↦ none
    | some (a, own') ↦ leave_host t method a own' (t.call method request theirs)
  ]

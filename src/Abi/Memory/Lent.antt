-- ===== src/Abi/Memory/Lent.antt =====
-- `callHost` of cmd/commandcode/abi.go on the memory of the plugin and of the host.
use cpa_plugin_commandcode.Base.{
  ℕ, ◌<◌, ◌^◌, Bytes, Option, none, some, [], ◌∷◌, ◌++◌, length, ℤ, ◌≡◌, ◌⊎◌, refl, ap, ◌∙◌, inl,
  inr, Bool-cases,
}
use cpa_plugin_commandcode.Config.{or_else}
use cpa_plugin_commandcode.Pool.{Error}
use cpa_plugin_commandcode.Abi.Calls.{HostApi, HostEnvelope, is_zero, read_answer, call_host}
use cpa_plugin_commandcode.Abi.Memory.{Heap, set, c_string, address_of, go_bytes}
use cpa_plugin_commandcode.Abi.Memory.Table.{
  HostTable, host_bytes, give_back, read_answer_in, leave_host, call_host_in,
}
use cpa_plugin_commandcode.Abi.Memory.Sets.{
  set_here, set_back, ltb_same, take-length, copy_into_room, free-set,
}
use cpa_plugin_commandcode.Abi.Memory.Lengths.{c_int_small}

-- What the host lends: nothing, or a buffer of less than 2 GiB in memory that was free.
abbrev pub IsLoan : Heap → Option ℕ → ℕ → Heap → Type 0
IsLoan h none n h' = (n ≡ 0) × (h' ≡ h)
IsLoan h (some a) n h' =
    (block : Bytes) × (h a ≡ none)
    × (h' ≡ set a (some block) h)
    × (n ≡ length block)
    × (length block < 2 ^ 31)

-- What the plugin relies on: a call of the host changes its memory by what it lends at most, and a
-- buffer that is given back is free.
pub record HostLaws (t : HostTable) : Type 0 where
  pub lends :
      (method request : Bytes) (h : Heap)
      → let (code, b, h') = t.call method request h in IsLoan h b.ptr b.len h'
  pub frees : (a n : ℕ) (h : Heap) → t.free_buffer a n h ≡ set a none h

-- The host without its memory: what its buffers hold.
abbrev pub contents : Option ℕ → Heap → Option Bytes
contents none h = none
contents (some a) h = h a

abbrev pub api_of : HostTable → Heap → HostApi
api_of t h method request = let (code, b, h') = t.call method request h in (code, contents b.ptr h')

give_back-IsLoan :
    (t : HostTable) (ptr : Option ℕ) (n : ℕ) (h h' : Heap)
    → HostLaws t
    → IsLoan h ptr n h'
    → give_back t (record { ptr = ptr; len = n }) h' ≡ h
unfolding give_back
give_back-IsLoan t none n h h' laws (_, same) = same
give_back-IsLoan t (some a) n h h' laws (block, fresh, same, _, _) =
    laws.frees a n h' ∙ ap (set a none) same ∙ set_back a (some block) h fresh

-- The bytes of a loan, none for the empty one.
loan_bytes :
    (ptr : Option ℕ) (n : ℕ) (h h' : Heap)
    → IsLoan h ptr n h'
    → host_bytes (record { ptr = ptr; len = n }) h' ≡ some (or_else (contents ptr h') [])
unfolding host_bytes go_bytes
loan_bytes none n h h' (empty, _) = rw (host_bytes, empty) refl
loan_bytes (some a) n h h' (block, fresh, same, long, small) =
    let here : h' a ≡ some block = ap (λ (g : Heap). g a) same ∙ set_here a (some block) h in
    rw
      (
        host_bytes,
        here,
        long,
        c_int_small (length block) small,
        ltb_same (length block),
        take-length block,
      )
      refl

pub c_string_room :
    (a : ℕ) (s : Bytes) (h : Heap)
    → h a ≡ none
    → c_string (some a) s h ≡ some (a, set a (some (s ++ 0 ∷ [])) h)
unfolding c_string address_of
c_string_room a s h e = ap address_of (copy_into_room a (s ++ 0 ∷ []) h e)

module _ {A : Type 0} (unmarshal_envelope : Bytes → Error ⊎ HostEnvelope)
    (unmarshal : Bytes → Error ⊎ A) (zero_value : A) where
  abbrev reading : Bytes → ℤ → Option Bytes → Error ⊎ A
  reading = read_answer unmarshal_envelope unmarshal zero_value

  read_answer_in-loan :
      (method : Bytes) (code : ℤ) (ptr : Option ℕ) (n : ℕ) (h h' : Heap)
      → IsLoan h ptr n h'
      → read_answer_in unmarshal_envelope unmarshal zero_value method code
          (record { ptr = ptr; len = n })
          h'
        ≡ some (reading method code (contents ptr h'))
  unfolding read_answer_in
  read_answer_in-loan method code ptr n h h' loan = elim (Bool-cases (is_zero code)) [
    | inl good ↦
        rw (read_answer_in, good, loan_bytes ptr n h h' loan) (unfold read_answer in rw good refl)
    | inr bad ↦ rw (read_answer_in, bad) refl
  ]

  leave_host-loan :
      (t : HostTable) (method : Bytes) (a : ℕ) (block : Bytes) (own : Heap) (code : ℤ)
      (ptr : Option ℕ) (n : ℕ) (h h' : Heap)
      → HostLaws t
      → own a ≡ none
      → IsLoan h ptr n h'
      → leave_host unmarshal_envelope unmarshal zero_value t method a
          (set a (some block) own)
          (code, record { ptr = ptr; len = n }, h')
        ≡ some (reading method code (contents ptr h'), own, h)
  unfolding leave_host
  leave_host-loan t method a block own code ptr n h h' laws fresh loan =
      rw
        (
          leave_host,
          read_answer_in-loan method code ptr n h h' loan,
          free-set a block (set a (some block) own) (set_here a (some block) own),
          give_back-IsLoan t ptr n h h' laws loan,
          set_back a (some block) own fresh,
        )
        refl

  -- On a host that keeps to the contract `callHost` gives what it gives without memory, and leaves the
  -- memory of the plugin and that of the host as they were: the copy of the method's name and the
  -- buffer of the host are each freed once, whatever the answer is. The copy must find room.
  pub call_host_in-call_host :
      (t : HostTable) (a : ℕ) (method : Bytes) (request : Error ⊎ Bytes) (own theirs : Heap)
      → HostLaws t
      → own a ≡ none
      → call_host_in unmarshal_envelope unmarshal zero_value
          (some a)
          (some t)
          method
          request
          own
          theirs
        ≡ some (
          (call_host unmarshal_envelope unmarshal zero_value
              (some (api_of t theirs))
              method
              request).0,
          own,
          theirs,
        )
  unfolding call_host_in call_host
  call_host_in-call_host t a method (inl e) own theirs laws fresh = refl
  call_host_in-call_host t a method (inr request) own theirs laws fresh =
      let b = (t.call method request theirs).1 in
      rw (call_host_in, c_string_room a method own fresh)
        (leave_host-loan t method a (method ++ 0 ∷ []) own (t.call method request theirs).0 b.ptr
          b.len theirs (t.call method request theirs).2 laws fresh
          (laws.lends method request theirs))

-- ===== src/Abi/Memory/Served.antt =====
-- `CommandCodePluginCall` of cmd/commandcode/abi.go on memory, against the same without it.
use cpa_plugin_commandcode.Base.{
  ℕ, suc, ◌<◌, ◌^◌, ◌%◌, Bytes, Bool, true, false, ◌&&◌, Option, none, some, [], ◌∷◌, length, ◌==◌,
  ◌≤◌, ◌≡◌, ◌⊎◌, refl, ap, inl, inr, Bool-cases, arith,
}
use cpa_plugin_commandcode.Config.{Yaml}
use cpa_plugin_commandcode.Json.{Json}
use cpa_plugin_commandcode.Pool.{Error, Net}
use cpa_plugin_commandcode.Executor.Run.{World}
use cpa_plugin_commandcode.Abi.Wire.{Wire, Handled, replied, refused, crashed}
use cpa_plugin_commandcode.Abi.Exports.{AbiState, Buffer, write_response, finish, plugin_call}
use cpa_plugin_commandcode.Abi.Memory.{
  Heap, set, CBuffer, nil_buffer, buffer_bytes, buffer_of, write_abi_response, raw_answer,
  put_answer, serve_request, plugin_call_in,
}
use cpa_plugin_commandcode.Abi.Memory.Lengths.{request_bytes_small, request_bytes_large}
use cpa_plugin_commandcode.Abi.Memory.Sets.{
  set_here, ltb_same, take-length, has_room, has_room-none, copy_into_room, copy_into_full,
}

abbrev pub given : Option CBuffer → Bool
given none = false
given (some b) = true

-- What the host finds in its buffer, and where.
abbrev pub found : Heap → Option CBuffer → Buffer
found h none = none
found h (some b) = buffer_bytes h b

abbrev pub address : Option CBuffer → Option ℕ
address none = none
address (some b) = b.ptr

-- Only the buffer's address has changed, where nothing was allocated.
abbrev pub Frames : Heap → Option CBuffer → Heap → Type 0
Frames h b h' = (q : ℕ) → (h' q ≡ h q) ⊎ ((address b ≡ some q) × (h q ≡ none))

-- The host finds these bytes, and nothing else has changed.
abbrev pub Leaves : Option (Option CBuffer × Heap) → Buffer → Heap → Type 0
Leaves o buffer h =
    (b : Option CBuffer) × (h' : Heap) × (o ≡ some (b, h')) × (found h' b ≡ buffer) × Frames h b h'

set-Frames :
    (a n : ℕ) (raw : Bytes) (h : Heap)
    → h a ≡ none
    → Frames h (some (record { ptr = some a; len = n })) (set a (some raw) h)
set-Frames a n raw h e q = elim (Bool-cases (a == q)) [
  | inl here ↦ inr (ground (arith, here), ground (arith, here, e))
  | inr elsewhere ↦ inl (rw elsewhere refl)
]

pub write_full :
    (room : Option ℕ) (b : CBuffer) (x : ℕ) (raw : Bytes) (h : Heap)
    → has_room room h ≡ false
    → write_abi_response room (some b) (x ∷ raw) h ≡ some (some nil_buffer, h)
unfolding write_abi_response buffer_of
write_full room b x raw h full =
    ap (buffer_of (suc (length raw))) (copy_into_full room (x ∷ raw) h full)

pub write_room :
    (a : ℕ) (b : CBuffer) (x : ℕ) (raw : Bytes) (h : Heap)
    → h a ≡ none
    → write_abi_response (some a) (some b) (x ∷ raw) h
      ≡ some (some (record { ptr = some a; len = length (x ∷ raw) }), set a (some (x ∷ raw)) h)
unfolding write_abi_response buffer_of
write_room a b x raw h e = ap (buffer_of (suc (length raw))) (copy_into_room a (x ∷ raw) h e)

found_room :
    (a : ℕ) (raw : Bytes) (h : Heap)
    → buffer_bytes (set a (some raw) h) (record { ptr = some a; len = length raw }) ≡ some raw
unfolding buffer_bytes
found_room a raw h =
    rw (buffer_bytes, set_here a (some raw) h, ltb_same (length raw), take-length raw) refl

write_abi_response-Leaves :
    (room : Option ℕ) (response : Option CBuffer) (raw : Bytes) (h : Heap)
    → Leaves
        (write_abi_response room response raw h)
        (write_response (given response && has_room room h) raw)
        h
unfolding write_abi_response write_response buffer_bytes
write_abi_response-Leaves room none [] h = (none, h, refl, refl, λ q. inl refl)
write_abi_response-Leaves room none (x ∷ raw) h = (none, h, refl, refl, λ q. inl refl)
write_abi_response-Leaves room (some b) [] h = (some nil_buffer, h, refl, refl, λ q. inl refl)
write_abi_response-Leaves none (some b) (x ∷ raw) h =
    (some nil_buffer, h, refl, refl, λ q. inl refl)
write_abi_response-Leaves (some a) (some b) (x ∷ raw) h = elim (Bool-cases (has_room (some a) h)) [
  | inl free_here ↦
      let e = has_room-none a h free_here in
      rw free_here (
        some (record { ptr = some a; len = length (x ∷ raw) }),
        set a (some (x ∷ raw)) h,
        write_room a b x raw h e,
        found_room a (x ∷ raw) h,
        set-Frames a (length (x ∷ raw)) (x ∷ raw) h e,
      )
  | inr full ↦ rw full (some nil_buffer, h, write_full (some a) b x raw h full, refl, λ q. inl refl)
]

-- The same for an answer with its code; without one, the process has ended.
abbrev pub Answers : Option (ℕ × Option CBuffer × Heap) → Option (ℕ × Buffer) → Heap → Type 0
Answers o none h = o ≡ none
Answers o (some (code, buffer)) h =
    (b : Option CBuffer) × (h' : Heap) × (o ≡ some (code, b, h'))
    × (found h' b ≡ buffer)
    × Frames h b h'

put_answer-Answers :
    (room : Option ℕ) (response : Option CBuffer) (code : ℕ) (raw : Bytes) (h : Heap)
    → Answers
        (put_answer room response (some (code, raw)) h)
        (some (code, write_response (given response && has_room room h) raw))
        h
unfolding put_answer
put_answer-Answers room response code raw h =
    let (b, h', e, held, frames) = write_abi_response-Leaves room response raw h in
    (b, h', rw (put_answer, e) refl, held, frames)

module _ (wire : Wire) (json : Json) (net : Net) (yaml : Yaml) where
  raw_answer-Answers :
      (room : Option ℕ) (response : Option CBuffer) (answer : Handled) (h : Heap)
      → Answers
          (put_answer room response (raw_answer wire answer) h)
          (finish wire json net yaml (given response && has_room room h) answer)
          h
  unfolding raw_answer finish put_answer
  raw_answer-Answers room response (replied raw) h = put_answer-Answers room response 0 raw h
  raw_answer-Answers room response (refused e) h = put_answer-Answers room response 1 _ h
  raw_answer-Answers room response crashed h = refl

  -- For a request of less than 2 GiB, `CommandCodePluginCall` on memory does what it does without: the
  -- same code, the same calls of the host and the same state, the host finds the same answer in its
  -- buffer, if it gave one and malloc finds room, and no memory that was allocated before changes. No
  -- access faults.
  pub plugin_call_in-plugin_call :
      (world : World net) (emit_error : ℕ → Option Error) (room : Option ℕ)
      (response : Option CBuffer) (method : Option Bytes) (request : Bytes)
      (s : AbiState json net yaml) (h : Heap)
      → length request < 2 ^ 31
      → let (o, calls, s') =
          plugin_call_in wire json net yaml world emit_error room response method
            (some request)
            (length request)
            s
            h in
        let (answer, calls', s'') =
          plugin_call wire json net yaml world emit_error
            (given response && has_room room h)
            method
            request
            s in
        Answers o answer h × (calls ≡ calls') × (s' ≡ s'')
  unfolding plugin_call_in plugin_call
  plugin_call_in-plugin_call world emit_error room response none request s h short =
      (put_answer-Answers room response 1 _ h, refl, refl)
  plugin_call_in-plugin_call world emit_error room response (some name) request s h short =
      unfold serve_request in
      rw (plugin_call_in, request_bytes_small request short)
        (raw_answer-Answers room response _ h, refl, refl)

  -- A request of at least 2 GiB whose length has its bit 31 set, as those of less than 4 GiB have, ends
  -- the process: the length becomes negative as a C.int.
  pub plugin_call_in_large :
      (world : World net) (emit_error : ℕ → Option Error) (room : Option ℕ)
      (response : Option CBuffer) (name request : Bytes) (s : AbiState json net yaml) (h : Heap)
      → 2 ^ 31 ≤ length request % 2 ^ 32
      → plugin_call_in wire json net yaml world emit_error room response
          (some name)
          (some request)
          (length request)
          s
          h
        ≡ (none, [], s)
  unfolding plugin_call_in serve_request
  plugin_call_in_large world emit_error room response name [] s h long =
      absurd (omega (arith, long))
  plugin_call_in_large world emit_error room response name (x ∷ request) s h long =
      ap (λ o. serve_request wire json net yaml world emit_error room response name o s h)
        (request_bytes_large x request long)

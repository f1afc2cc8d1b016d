-- ===== src/Abi/Answers.antt =====
-- What an answer of the host comes to, and how a stream reaches it.
use cpa_plugin_commandcode.Base.{
  ℕ, zero, suc, Bytes, true, false, Option, none, some, List, [], ◌∷◌, ◌++◌, map, ◌⊎◌, inl, inr,
  is_empty, ℤ, pos, negsuc, ◌≡◌, ◌↔◌, ◌∙◌, sym, refl, ap, arith, Bool-cases, append-nil,
}
use cpa_plugin_commandcode.Config.{or_else}
use cpa_plugin_commandcode.Pool.{Error}
use cpa_plugin_commandcode.Stream.{payload, failure}
use cpa_plugin_commandcode.Executor.Run.{StreamResponse}
use cpa_plugin_commandcode.Abi.{Event, next, HostCall, emit_call, close_call, pump_stream}
use cpa_plugin_commandcode.Abi.Relay.{payloads}
use cpa_plugin_commandcode.Abi.Calls.{
  HostApi, HostEnvelope, is_zero, open_envelope, read_answer, call_host, marshal_stream,
}

-- The payloads that the host's calls carry.
abbrev pub emitted : List HostCall → List Bytes
emitted [] = []
emitted (emit_call p ∷ calls) = p ∷ emitted calls
emitted (close_call m ∷ calls) = emitted calls

pub pump_stream-emitted :
    (n : ℕ) (events : List Event) → emitted (pump_stream (λ n. none) n events) ≡ payloads events
unfolding pump_stream
pump_stream-emitted n [] = refl
pump_stream-emitted n (Event.context_ended e ∷ _) = refl
pump_stream-emitted n (next (failure e) ∷ _) = refl
pump_stream-emitted n (next (payload []) ∷ events) = pump_stream-emitted n events
pump_stream-emitted n (next (payload (x ∷ p)) ∷ events) =
    ap (λ l. (x ∷ p) ∷ l) (pump_stream-emitted (suc n) events)

-- With a stream ID or without one, the host gets the same payloads of a stream, in the same order: in
-- the answer, or by emits, if none of them fails. Payloads that are empty or behind an error do not
-- count.
pub marshal_stream-payloads :
    (stream_id : Bytes) (r : StreamResponse)
    → let (answer, calls) = marshal_stream (λ n. none) stream_id r in
      payloads (map next answer.chunks) ++ emitted calls ≡ payloads (map next r.chunks)
unfolding marshal_stream
marshal_stream-payloads [] r = append-nil (payloads (map next r.chunks))
marshal_stream-payloads (x ∷ id) r = pump_stream-emitted 0 (map next r.chunks)

-- An answer of the host that is a result: the code is 0, the envelope can be read and says that all is
-- well, and its result is missing, for the zero value, or can be read.
pub record IsAnswer {A : Type 0} (unmarshal_envelope : Bytes → Error ⊎ HostEnvelope)
    (unmarshal : Bytes → Error ⊎ A) (zero_value : A) (code : ℤ) (buffer : Option Bytes) (a : A)
    : Type 0 where
  pub envelope : HostEnvelope
  pub no_code : code ≡ pos 0
  pub sent : unmarshal_envelope (or_else buffer []) ≡ inr envelope
  pub good : envelope.good ≡ true
  pub held :
      ((is_empty envelope.result ≡ true) × (zero_value ≡ a))
      ⊎ ((is_empty envelope.result ≡ false) × (unmarshal envelope.result ≡ inr a))

is_zero-pos : (code : ℤ) → is_zero code ≡ true → code ≡ pos 0
is_zero-pos (pos zero) h = refl
is_zero-pos (pos (suc n)) h = cc
is_zero-pos (negsuc n) h = cc

module _ {A : Type 0} (unmarshal_envelope : Bytes → Error ⊎ HostEnvelope)
    (unmarshal : Bytes → Error ⊎ A) (zero_value : A) where
  open_envelope-held :
      (method : Bytes) (e : HostEnvelope) (a : A)
      → open_envelope unmarshal_envelope unmarshal zero_value method e ≡ inr a
      → (e.good ≡ true)
        × (((is_empty e.result ≡ true) × (zero_value ≡ a))
            ⊎ ((is_empty e.result ≡ false) × (unmarshal e.result ≡ inr a)))
  unfolding open_envelope
  open_envelope-held method e a h = ground arith

  -- The other direction of the same.
  held-open_envelope :
      (method : Bytes) (e : HostEnvelope) (a : A)
      → e.good ≡ true
      → ((is_empty e.result ≡ true) × (zero_value ≡ a))
        ⊎ ((is_empty e.result ≡ false) × (unmarshal e.result ≡ inr a))
      → open_envelope unmarshal_envelope unmarshal zero_value method e ≡ inr a
  unfolding open_envelope
  held-open_envelope method e a h k = ground arith

  read_answer-refused :
      (method : Bytes) (code : ℤ) (buffer : Option Bytes) (a : A)
      → read_answer unmarshal_envelope unmarshal zero_value method code buffer ≡ inr a
      → is_zero code ≡ true
  unfolding read_answer
  read_answer-refused method code buffer a h = elim (Bool-cases (is_zero code)) [
    | inl zero_code ↦ zero_code
    | inr bad ↦ absurd (cc (rw bad at h))
  ]

  read_answer-zero :
      (method : Bytes) (buffer : Option Bytes) (r : Error ⊎ HostEnvelope)
      → unmarshal_envelope (or_else buffer []) ≡ r
      → read_answer unmarshal_envelope unmarshal zero_value method (pos 0) buffer ≡ elim r [
        | inl e ↦ inl e
        | inr envelope ↦ open_envelope unmarshal_envelope unmarshal zero_value method envelope
      ]
  unfolding read_answer
  read_answer-zero method buffer r h = rw (h, read_answer)

  read_answer-IsAnswer :
      (method : Bytes) (buffer : Option Bytes) (a : A) (r : Error ⊎ HostEnvelope)
      → unmarshal_envelope (or_else buffer []) ≡ r
      → read_answer unmarshal_envelope unmarshal zero_value method (pos 0) buffer ≡ inr a
      → IsAnswer unmarshal_envelope unmarshal zero_value (pos 0) buffer a
  read_answer-IsAnswer method buffer a (inl e) sent h =
      absurd (cc (sym (read_answer-zero method buffer (inl e) sent) ∙ h))
  read_answer-IsAnswer method buffer a (inr e) sent h =
      let (good, held) =
        open_envelope-held method e a (sym (read_answer-zero method buffer (inr e) sent) ∙ h) in
      record { envelope = e; no_code = refl; sent = sent; good = good; held = held }

  -- `callHost` gives a result exactly for an answer of the host that is one.
  pub call_host_iff :
      (host : HostApi) (method request : Bytes) (a : A)
      → let (code, buffer) = host method request in
        ((call_host unmarshal_envelope unmarshal zero_value (some host) method (inr request)).0
          ≡ inr a)
        ↔ IsAnswer unmarshal_envelope unmarshal zero_value code buffer a
  unfolding call_host
  call_host_iff host method request a =
      let code = (host method request).0 in
      let buffer = (host method request).1 in
      (
        λ h.
            let no_code = is_zero-pos code (read_answer-refused method code buffer a h) in
            rw no_code (read_answer-IsAnswer method buffer a _ refl (rw no_code at h)),
        λ (w : IsAnswer unmarshal_envelope unmarshal zero_value code buffer a). rw w.no_code (
            read_answer-zero method buffer (inr w.envelope) w.sent
            ∙ held-open_envelope method w.envelope a w.good w.held),
      )

-- ===== src/Executor.antt =====
-- executor.go: the upstream request, the failover over the members of the pool, raw HTTP requests
-- and the errors.
pub mod Tokens
pub mod Run
pub mod Upstream
pub mod Verdict
pub mod Failover
pub mod Statuses
pub mod Calls
pub mod Kept
pub mod ErrorBody
pub mod Abandoned
pub mod Http
mod Tests
mod AbandonedTests
use cpa_plugin_commandcode.Base.{
  ℕ, zero, suc, ◌+◌, ◌-◌, ◌/◌, ◌^◌, Bytes, codes, Bool, true, false, not, ◌&&◌, ◌||◌, Option, none,
  some, List, [], ◌∷◌, ◌++◌, ◌⊎◌, inl, inr, is_empty, if◌then◌else◌, bytes_eq, ltb, leb, length,
  take, get_elem?, pos,
}
use cpa_plugin_commandcode.Base.Trim.{trim_space}
use cpa_plugin_commandcode.Base.Dict.{Dict, lookup, insert}
use cpa_plugin_commandcode.Config.{ApiKeyEntry, PluginConfig, base_url, or_else}
use cpa_plugin_commandcode.Json.{Json}
use cpa_plugin_commandcode.Pool.{
  Any, Auth, Error, plain_error, members, order, retryable, Net, Doer, host_doer, Clients,
  client_for,
}
use cpa_plugin_commandcode.Reasoning.{itoa, map_reasoning_body}
use cpa_plugin_commandcode.Stream.{
  Framing, OutChunk, Input, read, broken, cancelled, stream_framing, convert,
}
use cpa_plugin_commandcode.Translator.{TransformRequest, translate_request}

-- http.Header: the values of each key.
abbrev pub Header : Type 0
Header = Dict (List Bytes)

-- `Header.Get`, "" if the key is missing.
unfoldable pub header_get : Bytes → Header → Bytes
header_get k h = elim (lookup k h) [ none ↦ [] | some [] ↦ [] | some (v ∷ _) ↦ v ]

unfoldable pub header_set : Bytes → Bytes → Header → Header
header_set k v h = insert k (v ∷ []) h

-- pluginapi.ExecutorRequest, as far as it is read; `host` says whether it has an HTTP client.
pub record ExecutorRequest : Type 0 where
  pub model : Bytes
  pub payload : Bytes
  pub auth : Auth
  pub metadata : Dict Any
  pub host : Bool

-- `strings.TrimSuffix(s, "/")`
unfoldable pub trim_slash : Bytes → Bytes
trim_slash [] = []
trim_slash (c ∷ []) = if bytes_eq (c ∷ []) (codes "/") then [] else c ∷ []
trim_slash (c ∷ d ∷ s) = c ∷ trim_slash (d ∷ s)

-- `endpoint`
unfoldable pub endpoint : Option PluginConfig → Bytes
unfolding trim_slash
endpoint cfg = trim_slash (base_url cfg) ++ codes "/chat/completions"

abbrev pub missing_key_msg : Bytes
missing_key_msg =
    codes "commandcode executor: missing api key (router path passes nil auth; "
    ++ codes "set plugins.configs.commandcode.api_key or api_keys in config.yaml)"

-- `apiKey`
unfoldable pub api_key : Option PluginConfig → Auth → Bytes
api_key cfg auth = elim (members cfg auth) [ [] ↦ [] | m ∷ _ ↦ trim_space m.key ]

-- `upstreamHeaders`
unfoldable pub upstream_headers : Bytes → Bool → Header
upstream_headers api_key stream =
    (codes "Content-Type", codes "application/json" ∷ [])
    ∷ (codes "Authorization", (codes "Bearer " ++ api_key) ∷ [])
    ∷ (codes "User-Agent", codes "cli-proxy-commandcode" ∷ [])
    ∷ (
      codes "Accept",
      (if stream then codes "text/event-stream" else codes "application/json") ∷ [],
    )
    ∷ []

-- The first 1 MiB of a stream that failed, `readStreamErrorBody`.
abbrev pub max_error_bytes : ℕ
max_error_bytes = 2 ^ 20

unfoldable pub read_error_body : List Input → Bytes → Bytes
read_error_body [] body = body
read_error_body (cancelled e ∷ _) body = body
read_error_body (read p ∷ inputs) body =
    let remaining = max_error_bytes - length body in
    let rest = read_error_body inputs (body ++ p) in
    if not (ltb (length body) max_error_bytes)
    then body
    else if ltb remaining (length p)
    then body ++ take remaining p
    else rest
read_error_body (broken p e ∷ _) body =
    let remaining = max_error_bytes - length body in
    if not (ltb (length body) max_error_bytes)
    then body
    else if ltb remaining (length p)
    then body ++ take remaining p
    else body ++ p

-- What a call of the executor comes to; a panic is an index out of range or `Intn` without a
-- positive argument.
pub data Outcome {ℓ} (A : Type ℓ) : Type ℓ where
  done : A → Outcome A
  failed : Error → Outcome A
  panic : Outcome A

-- What one member's upstream call gives: an error, or a status with the body of its error message
-- and the response that a 2xx status makes of it.
pub record Attempt {ℓ} (A : Type ℓ) : Type ℓ where
  pub error : Option Error
  pub status : ℕ
  pub error_body : Bytes
  pub response : A

module _ (json : Json) where
  open json use {set_bool, unmarshal_error, unmarshal_message, unmarshal_string}

  -- A text that is not blank, trimmed.
  abbrev pub filled : Option Bytes → Option Bytes
  filled none = none
  filled (some s) = let t = trim_space s in if is_empty t then none else some t

  -- The first of two texts that is there.
  abbrev pub first_of_two : Option Bytes → Option Bytes → Option Bytes
  first_of_two none b = b
  first_of_two (some a) b = some a

  -- The message that the decoded body carries, if any.
  unfoldable pub decoded_message : Bytes → Option Bytes
  decoded_message trimmed = elim (unmarshal_error trimmed) [
    | none ↦ none
    | some (message, error) ↦
        let nested =
          first_of_two (filled (unmarshal_message error)) (filled (unmarshal_string error)) in
        first_of_two (if is_empty error then none else nested) (filled (some message))
  ]

  -- `upstreamErrorMessage`
  unfoldable pub upstream_error_message : Bytes → Bytes
  unfolding decoded_message
  upstream_error_message body =
      let trimmed = trim_space body in
      if is_empty trimmed
      then []
      else or_else (decoded_message trimmed)
          (if ltb 500 (length trimmed) then take 500 trimmed else trimmed)

  -- A `statusError` with its text, `Error`.
  unfoldable pub status_error : ℕ → Bytes → Bytes → Error
  unfolding upstream_error_message
  status_error status msg body = record {
    text =
        if not (is_empty (trim_space msg))
        then msg
        else if not (is_empty body)
        then upstream_error_message body
        else codes "status " ++ itoa (pos status);
    status = some status;
  }

  -- `setStreamFlag`
  unfoldable pub set_stream_flag : Bytes → Bool → Bytes
  set_stream_flag [] stream = []
  set_stream_flag (x ∷ s) stream = elim (set_bool (x ∷ s) (codes "stream") stream) [
    | none ↦ x ∷ s
    | some updated ↦
        if stream
        then or_else (set_bool updated (codes "stream_options.include_usage") true) updated
        else updated
  ]

  -- `buildUpstreamBody`
  unfoldable pub build_upstream_body : Option PluginConfig → Bytes → Bytes → Bool → Bytes
  unfolding set_stream_flag
  build_upstream_body cfg model payload stream =
      let req : TransformRequest = record {
        from_format = codes "openai";
        to_format = codes "commandcode";
        model = model;
        body = payload;
      } in
      let body : Bytes = elim (translate_request json cfg req) [
        | inl e ↦ payload
        | inr out ↦ if is_empty out then payload else out
      ] in
      set_stream_flag body stream

  -- The end of a round, behind the upstream call: `next` goes on to the next member with the error
  -- to remember, if the failure is worth it and the context has not ended.
  unfoldable pub conclude {ℓ} :
      {A : Type 0} {C : Type ℓ} → Bool → Attempt A → C → (Error → Outcome A × C) → Outcome A × C
  unfolding retryable status_error
  conclude ended a clients next = elim a.error [
    | some e ↦ if retryable 0 (some e) && not ended then next e else (failed e, clients)
    | none ↦
        let e = status_error a.status [] a.error_body in
        if ltb a.status 200 || leb 300 a.status
        then (if retryable a.status none && not ended then next e else (failed e, clients))
        else (done a.response, clients)
  ]

  module _ (net : Net) {A : Type 0} (ms : List ApiKeyEntry) (host : Bool)
      (attempt : ℕ → ApiKeyEntry → Doer net → Attempt A) (ended : ℕ → Bool) where
    -- The n-th round for a member whose client is known or missing: the call is `attempt`, and
    -- `ended` says whether the context has ended behind it.
    unfoldable pub proceed :
        ℕ
        → ApiKeyEntry
        → Error ⊎ Doer net
        → Clients net
        → (Clients net → Error → Outcome A × Clients net)
        → Outcome A × Clients net
    unfolding conclude
    proceed n m (inl e) clients next = next clients e
    proceed n m (inr d) clients next = conclude (ended n) (attempt n m d) clients (next clients)

    -- One round of the loop of `Execute` and `ExecuteStream`, for the member at an index. The clients
    -- that the pool keeps are passed along.
    unfoldable pub round :
        ℕ
        → ℕ
        → Clients net
        → (Clients net → Error → Outcome A × Clients net)
        → Outcome A × Clients net
    unfolding client_for proceed
    round n idx clients next = elim (get_elem? ms idx) [
      | none ↦ (panic, clients)
      | some m ↦
          let (d, clients') = client_for net idx m host clients in proceed n m d clients' next
    ]

    -- The loop over the order of the members, from the n-th round on, with `lastErr`.
    unfoldable pub failover : ℕ → List ℕ → Clients net → Option Error → Outcome A × Clients net
    unfolding round status_error
    failover n [] clients (some last) = (failed last, clients)
    failover n [] clients none = (
      failed (status_error 502 (codes "commandcode executor: all pool members failed") []),
      clients,
    )
    failover n (idx ∷ rest) clients last =
        round n idx clients (λ clients' e. failover (suc n) rest clients' (some e))

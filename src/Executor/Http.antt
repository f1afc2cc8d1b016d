-- ===== src/Executor/Http.antt =====
-- `HttpRequest`: which requests leave, and with which credentials.
use mathlib.Core.Bool.{false≢true}
use cpa_plugin_commandcode.Base.{
  Bytes, codes, true, false, ◌&&◌, Option, none, some, List, [], ◌∷◌, ◌++◌, inl, inr, is_empty,
  if◌then◌else◌, bytes_eq, bytes_eq_self, ◌≡◌, refl, ◌∙◌, Bool-cases, Option-cases, ◌⊎◌,
}
use cpa_plugin_commandcode.Base.Dict.{lookup, lookup-insert}
use cpa_plugin_commandcode.Base.Trim.{trim_space}
use cpa_plugin_commandcode.Config.{ApiKeyEntry, PluginConfig}
use cpa_plugin_commandcode.Json.{Json}
use cpa_plugin_commandcode.Pool.{members, Net, Doer, Clients}
use cpa_plugin_commandcode.Executor.{Header, header_get, header_set, Outcome, done}
use cpa_plugin_commandcode.Executor.Failover.{is_done}
use cpa_plugin_commandcode.Executor.Run.{
  World, Reply, HttpRequest, HttpResponse, http_headers, http_client, http_request,
}

header_get-found : (k v : Bytes) (h : Header) → lookup k h ≡ some (v ∷ []) → header_get k h ≡ v
unfolding header_get
header_get-found k v h e = rw (e, header_get)

header_get-header_set : (k v : Bytes) (h : Header) → header_get k (header_set k v h) ≡ v
unfolding header_set
header_get-header_set k v h =
    let same : (if bytes_eq k k then some (v ∷ []) else lookup k h) ≡ some (v ∷ []) =
      rw (bytes_eq_self k) refl in
    header_get-found k v _ (lookup-insert k k (v ∷ []) h ∙ same)

-- The `Authorization` that a request has of its own, or that of the first member of the pool.
abbrev pub credentials : List ApiKeyEntry → Bytes → Bytes
credentials [] own = own
credentials (m ∷ ms) own = if is_empty own then codes "Bearer " ++ trim_space m.key else own

abbrev authorization : Bytes
authorization = codes "Authorization"

-- The outcome passes on a reply that is no error.
abbrev pub IsAnswer : Outcome HttpResponse → Reply → Type 0
IsAnswer outcome r =
    (r.error ≡ none)
    × (outcome ≡ done (record { status = r.status; headers = r.headers; body = r.body }))

Sum-cases : {A B : Type 0} (x : A ⊎ B) → ((a : A) × (x ≡ inl a)) ⊎ ((b : B) × (x ≡ inr b))
Sum-cases (inl a) = inl (a, refl)
Sum-cases (inr b) = inr (b, refl)

-- The other headers.
abbrev pub without_own : Header → Bytes → Option (List Bytes)
without_own h k = if bytes_eq authorization k then none else lookup k h

module _ (json : Json) (net : Net) (world : World net) (cfg : Option PluginConfig) where
  http_headers-credentials :
      (ms : List ApiKeyEntry) (h : Header)
      → header_get authorization (http_headers json net world cfg ms h)
        ≡ credentials ms (header_get authorization h)
  unfolding http_headers
  http_headers-credentials [] h = refl
  http_headers-credentials (m ∷ ms) h = elim (Bool-cases (is_empty (header_get authorization h))) [
    | inl missing ↦ rw missing (header_get-header_set authorization _ h)
    | inr own ↦ rw own refl
  ]

  -- The test for the missing key lets only requests with credentials pass.
  credentials-full :
      (ms : List ApiKeyEntry) (own : Bytes)
      → (is_empty ms && is_empty own) ≡ false
      → is_empty (credentials ms own) ≡ false
  credentials-full [] own h = h
  credentials-full (m ∷ ms) [] h = refl
  credentials-full (m ∷ ms) (x ∷ own) h = refl

  http_request-guarded :
      (req : HttpRequest) (clients : Clients net)
      → is_done (http_request json net world cfg req clients).0 ≡ true
      → (is_empty (trim_space req.url) ≡ false)
        × ((is_empty (members cfg req.auth) && is_empty (header_get authorization req.headers))
            ≡ false)
  unfolding http_request
  http_request-guarded req clients h = elim (Bool-cases (is_empty (trim_space req.url))) [
    | inl blank ↦ absurd (false≢true (rw blank at h))
    | inr url ↦
        elim (Bool-cases
          (is_empty (members cfg req.auth) && is_empty (header_get authorization req.headers))) [
            | inl missing ↦ absurd (false≢true (rw (url, missing) at h))
            | inr allowed ↦ (url, allowed)
          ]
  ]

  -- A response is what a client answered to this call.
  http_request-called :
      (req : HttpRequest) (clients : Clients net)
      → is_done (http_request json net world cfg req clients).0 ≡ true
      → (d : Doer net) × IsAnswer (http_request json net world cfg req clients).0 (
          world.call 0 d
            (trim_space req.url)
            (http_headers json net world cfg (members cfg req.auth) req.headers)
            req.body)
  unfolding http_request
  http_request-called req clients h =
      let (url, allowed) = http_request-guarded req clients h in
      let ms = members cfg req.auth in
      elim (Sum-cases (http_client json net world cfg ms req.host clients).0) [
        | inl (e, none_found) ↦ absurd (false≢true (rw (url, allowed, none_found) at h))
        | inr (d, found) ↦
            let sent = http_headers json net world cfg ms req.headers in
            elim (Option-cases (world.call 0 d (trim_space req.url) sent req.body).error) [
              | inl fine ↦ (d, (fine, rw (url, allowed, found, fine) refl))
              | inr (e, broken) ↦ absurd (false≢true (rw (url, allowed, found, broken) at h))
            ]
      ]

  http_headers-other :
      (ms : List ApiKeyEntry) (h : Header) (k : Bytes)
      → without_own (http_headers json net world cfg ms h) k ≡ without_own h k
  unfolding http_headers header_set
  http_headers-other [] h k = refl
  http_headers-other (m ∷ ms) h k =
      let insertion =
        lookup-insert authorization k ((codes "Bearer " ++ trim_space m.key) ∷ []) h in
      elim (Bool-cases (is_empty (header_get authorization h))) [
        | inl missing ↦ elim (Bool-cases (bytes_eq authorization k)) [
          | inl same ↦ rw same refl
          | inr other ↦ rw (missing, other, insertion, other) refl
        ]
        | inr own ↦ rw own refl
      ]

  -- Where `HttpRequest` answers with a response, the request had a URL that is not blank, and the
  -- response is what a client answered, without an error, to one call with the trimmed URL, the body
  -- and the headers of the request, of which only `Authorization` may differ: the client was called
  -- with the request's own, if it had one, and else with the key of the first member, never with none.
  pub http_request-credentials :
      (req : HttpRequest) (clients : Clients net)
      → is_done (http_request json net world cfg req clients).0 ≡ true
      → let own = header_get authorization req.headers in
        (d : Doer net) × (sent : Header) × IsAnswer
          (http_request json net world cfg req clients).0
          (world.call 0 d (trim_space req.url) sent req.body)
        × (header_get authorization sent ≡ credentials (members cfg req.auth) own)
        × (is_empty (header_get authorization sent) ≡ false)
        × ((k : Bytes) → without_own sent k ≡ without_own req.headers k)
        × (is_empty (trim_space req.url) ≡ false)
  http_request-credentials req clients h =
      let (url, allowed) = http_request-guarded req clients h in
      let ms = members cfg req.auth in
      let same = http_headers-credentials ms req.headers in
      let (d, answer) = http_request-called req clients h in
      (
        d,
        http_headers json net world cfg ms req.headers,
        answer,
        same,
        rw same (credentials-full ms _ allowed),
        http_headers-other ms req.headers,
        url,
      )

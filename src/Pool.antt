-- ===== src/Pool.antt =====
-- pool.go: the members of the key pool, their weighted order, the HTTP client of a member, and the
-- errors after which the next member is tried.
pub mod Order
pub mod Pick
pub mod Members
pub mod Clients
pub mod Doers
mod Tests
use cpa_plugin_commandcode.Base.{
  ℕ, zero, suc, ◌+◌, ◌-◌, ◌%◌, ◌^◌, Bytes, codes, Bool, true, false, ◌||◌, ◌&&◌, Option, none, some,
  List, [], ◌∷◌, ◌++◌, is_empty, ◌==◌, leb, ltb, bytes_eq, to_lower, if◌then◌else◌, length,
  get_elem?, ℤ, pos, ◌⊎◌, inl, inr,
}
use cpa_plugin_commandcode.Base.Trim.{trim_space}
use cpa_plugin_commandcode.Base.Dict.{Dict, lookup}
use cpa_plugin_commandcode.Config.{ApiKeyEntry, PluginConfig, norm_weight, or_else}

-- A value of `map[string]any`: a string, or something else.
pub data Any : Type 0 where
  string : Bytes → Any
  other : Any

-- The part of an executor request that carries the host's credentials.
pub record Auth : Type 0 where
  pub attributes : Dict Bytes
  pub metadata : Dict Any

abbrev pub has_key : ApiKeyEntry → Bool
has_key en = if is_empty (trim_space en.key) then false else true

-- The loop of `members`: the entries that are kept, and whether any entry has a key.
unfoldable pub usable : List ApiKeyEntry → List ApiKeyEntry
usable [] = []
usable (en ∷ es) =
    let rest = usable es in if has_key en then (if en.disabled then rest else en ∷ rest) else rest

unfoldable pub defined : List ApiKeyEntry → Bool
defined [] = false
defined (en ∷ es) = let rest = defined es in if has_key en then true else rest

abbrev pub single : Bytes → ApiKeyEntry
single k = record { key = k; weight = pos 1; proxy_url = []; disabled = false }

-- `map["api_key"].(string)`, "" if the key is missing or its value is no string.
unfoldable pub string_value : Option Any → Bytes
string_value none = []
string_value (some (string s)) = s
string_value (some other) = []

-- The request's own credentials.
unfoldable pub auth_members : Auth → List ApiKeyEntry
unfolding string_value
auth_members req =
    let k = trim_space (or_else (lookup (codes "api_key") req.attributes) []) in
    let j = trim_space (string_value (lookup (codes "api_key") req.metadata)) in
    if is_empty k then (if is_empty j then [] else single j ∷ []) else single k ∷ []

-- The single legacy key, then the request's credentials.
unfoldable pub fallback : Option PluginConfig → Auth → List ApiKeyEntry
unfolding auth_members
fallback none req = auth_members req
fallback (some c) req =
    let k = trim_space c.api_key in if is_empty k then auth_members req else single k ∷ []

-- `members`
unfoldable pub members : Option PluginConfig → Auth → List ApiKeyEntry
unfolding usable defined fallback
members none req = fallback none req
members (some c) req =
    let out = usable c.api_keys in
    if is_empty out then (if defined c.api_keys then [] else fallback (some c) req) else out

-- The weight of the member at an index.
unfoldable pub weight_at : List ApiKeyEntry → ℕ → ℕ
weight_at ms i = elim (get_elem? ms i) [ none ↦ 0 | some m ↦ norm_weight m ]

-- `0, 1, …, n - 1`
unfoldable pub indices_from : ℕ → ℕ → List ℕ
indices_from i zero = []
indices_from i (suc n) = i ∷ indices_from (suc i) n

-- `remaining[pick]`, and the two slices around it.
unfoldable pub take_out : ℕ → List ℕ → Option (ℕ × List ℕ)
take_out k [] = none
take_out zero (i ∷ is) = some (i, is)
take_out (suc k) (i ∷ is) = elim (take_out k is) [
  | none ↦ none
  | some (j, rest) ↦ some (j, i ∷ rest)
]

module _ (weight : ℕ → ℕ) where
  unfoldable pub total : List ℕ → ℕ
  total [] = 0
  total (i ∷ is) = weight i + total is

  -- The loop that finds `pick`: the position `k` at which the running `r` falls below 0. It is 0,
  -- the variable's start value, if `r` never does.
  unfoldable pub pick : List ℕ → ℕ → ℕ → ℕ
  pick [] r k = 0
  pick (i ∷ is) r k =
      let later = pick is (r - weight i) (suc k) in if ltb r (weight i) then k else later

  -- The outer loop, a round for each remaining index. `draws` are the values of the generator, of
  -- which `Intn` takes the remainder. The sum of the weights is an int64; where it has wrapped
  -- around to a value that is not positive, `Intn` panics: `none`.
  unfoldable pub order_from : ℕ → (ℕ → ℕ) → List ℕ → Option (List ℕ)
  unfolding total pick take_out
  order_from zero draws remaining = some []
  order_from (suc n) draws remaining =
      let weights = total remaining % 2 ^ 64 in
      let round : Option (List ℕ) =
        elim (take_out (pick remaining (draws 0 % weights) 0) remaining) [
          | none ↦ none
          | some (j, rest) ↦ elim (order_from n (λ i. draws (suc i)) rest) [
            | none ↦ none
            | some out ↦ some (j ∷ out)
          ]
        ] in
      if weights == 0 || leb (2 ^ 63) weights then none else round

-- `order`; `none` is a panic.
unfoldable pub order : (ℕ → ℕ) → List ApiKeyEntry → Option (List ℕ)
unfolding order_from weight_at indices_from
order draws ms = order_from (weight_at ms) (length ms) draws (indices_from 0 (length ms))

-- An error value: its text, and its HTTP status where it is a `statusError`.
pub record Error : Type 0 where
  pub text : Bytes
  pub status : Option ℕ

abbrev pub plain_error : Bytes → Error
plain_error text = record { text = text; status = none }

-- `retryable`; the error counts by whether it is nil.
unfoldable pub retryable : ℕ → Option Error → Bool
retryable status (some e) = true
retryable status none = status == 401 || status == 429 || (leb 500 status && leb status 599)

-- net/url and golang.org/x/net/proxy, which the sources only call: `parse` is url.Parse with the
-- text of its error, and `dial` is proxy.FromURL with the text of its error. `quote` is fmt's %q.
pub record Net : Type 1 where
  pub Url : Type 0
  pub Dialer : Type 0
  pub parse : Bytes → Bytes ⊎ Url
  pub scheme : Url → Bytes
  pub quote : Bytes → Bytes
  pub dial : Url → Bytes ⊎ Dialer

module _ (net : Net) where
  -- The transports that `proxyTransport` builds.
  pub data Transport : Type 0 where
    http_proxy : net.Url → Transport
    socks_proxy : net.Dialer → Transport

  -- `doer`: the host's client, or one of the plugin's own with its transport.
  pub data Doer : Type 0 where
    host_doer : Doer
    std_doer : Transport → Doer

  -- `proxyTransport`
  unfoldable pub proxy_transport : Bytes → Error ⊎ Transport
  proxy_transport proxy_url = elim (net.parse proxy_url) [
    | inl e ↦ inl (
        plain_error (
          codes "commandcode executor: invalid proxy_url "
          ++ (net.quote proxy_url ++ (codes ": " ++ e))))
    | inr u ↦
        let scheme = to_lower (net.scheme u) in
        if bytes_eq scheme (codes "http") || bytes_eq scheme (codes "https")
        then inr (http_proxy u)
        else if bytes_eq scheme (codes "socks5") || bytes_eq scheme (codes "socks5h")
        then (elim (net.dial u) [
          | inl e ↦ inl (
              plain_error (
                codes "commandcode executor: invalid socks proxy "
                ++ (net.quote proxy_url ++ (codes ": " ++ e))))
          | inr d ↦ inr (socks_proxy d)
        ])
        else if is_empty scheme
        then inl (
            plain_error (
              codes "commandcode executor: proxy_url "
              ++ (net.quote proxy_url ++ codes " missing scheme")))
        else inl (
            plain_error
              (codes "commandcode executor: unsupported proxy scheme " ++ net.quote (net.scheme u)))
  ]

  -- `p.clients`
  abbrev pub Clients : Type 0
  Clients = List (ℕ × Transport)

  unfoldable pub client_at : ℕ → Clients → Option Transport
  client_at i [] = none
  client_at i ((j, t) ∷ cs) = if j == i then some t else client_at i cs

  -- `clientFor`, with the clients that it leaves behind. `host` says whether there is a host client.
  unfoldable pub client_for : ℕ → ApiKeyEntry → Bool → Clients → (Error ⊎ Doer) × Clients
  unfolding proxy_transport client_at
  client_for idx member host clients =
      let proxy_url = trim_space member.proxy_url in
      let build : (Error ⊎ Doer) × Clients = elim (proxy_transport proxy_url) [
        | inl e ↦ (inl e, clients)
        | inr t ↦ (inr (std_doer t), (idx, t) ∷ clients)
      ] in
      if is_empty proxy_url
      then (if host then (inr host_doer, clients) else (
        inl (plain_error (codes "commandcode executor: host HTTP client is required")),
        clients,
      ))
      else elim (client_at idx clients) [ some t ↦ (inr (std_doer t), clients) | none ↦ build ]

-- ===== src/Pool/Doers.antt =====
-- The client of a member does not depend on what the pool has kept.
use cpa_plugin_commandcode.Base.{
  ℕ, codes, Bool, true, false, none, some, is_empty, if◌then◌else◌, ◌≡◌, refl, ◌⊎◌, inl, inr,
  Bool-cases, Option-cases, get_elem?,
}
use cpa_plugin_commandcode.Base.Trim.{trim_space}
use cpa_plugin_commandcode.Config.{ApiKeyEntry, PluginConfig}
use cpa_plugin_commandcode.Pool.{
  Auth, Net, Error, plain_error, members, Transport, Doer, host_doer, std_doer, proxy_transport,
  Clients, client_at, client_for,
}
use cpa_plugin_commandcode.Pool.Clients.{
  IsCoherent, IsBuilt-same, client_for_kept, client_for_built, client_for_refused,
}

-- The client that a member is to get, from the member alone.
unfoldable pub own_doer : (net : Net) → ApiKeyEntry → Bool → Error ⊎ Doer net
own_doer net m host =
    if is_empty (trim_space m.proxy_url)
    then (if host
        then inr host_doer
        else inl (plain_error (codes "commandcode executor: host HTTP client is required")))
    else elim (proxy_transport net (trim_space m.proxy_url)) [
      | inl e ↦ inl e
      | inr t ↦ inr (std_doer t)
    ]

client_for_bare-own :
    (net : Net) (i : ℕ) (m : ApiKeyEntry) (host : Bool) (clients : Clients net)
    → is_empty (trim_space m.proxy_url) ≡ true
    → (client_for net i m host clients).0 ≡ own_doer net m host
unfolding client_for own_doer
client_for_bare-own net i m true clients bare = rw bare
client_for_bare-own net i m false clients bare = rw bare

-- With coherent clients `clientFor` gives each member its own client, whatever is kept.
pub client_for-own_doer :
    (net : Net) (c : PluginConfig) (req : Auth) (i : ℕ) (m : ApiKeyEntry) (host : Bool)
    (clients : Clients net)
    → get_elem? (members (some c) req) i ≡ some m
    → IsCoherent net c clients
    → (client_for net i m host clients).0 ≡ own_doer net m host
unfolding own_doer
client_for-own_doer net c req i m host clients seen coherent =
    elim (Bool-cases (is_empty (trim_space m.proxy_url))) [
      | inl bare ↦ client_for_bare-own net i m host clients bare
      | inr proxied ↦ elim (Option-cases (client_at net i clients)) [
        | inr (t, kept) ↦ rw (
          client_for_kept net c i m host clients t proxied kept,
          proxied,
          IsBuilt-same net c req i m t seen proxied (coherent i t kept),
        )
        | inl new ↦ fresh proxied new (proxy_transport net (trim_space m.proxy_url)) refl
      ]
    ]
  where
    fresh :
        is_empty (trim_space m.proxy_url) ≡ false
        → client_at net i clients ≡ none
        → (r : Error ⊎ Transport net) → proxy_transport net (trim_space m.proxy_url) ≡ r
        → (client_for net i m host clients).0 ≡ own_doer net m host
    fresh proxied new (inl e) refused =
        rw (client_for_refused net c i m host clients e proxied new refused, proxied, refused)
    fresh proxied new (inr t) built =
        rw (client_for_built net c i m host clients t proxied new built, proxied, built)

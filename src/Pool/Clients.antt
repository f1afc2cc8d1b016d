-- ===== src/Pool/Clients.antt =====
-- The clients that are kept by member index always have the transport of their member's proxy.
use mathlib.Core.Path.{subst₂}
use cpa_plugin_commandcode.Base.{
  ℕ, Bytes, Bool, true, false, none, some, [], ◌∷◌, is_empty, ◌≡◌, ◌≢◌, ◌⊎◌, inl, inr, refl, arith,
  Bool-cases, Option-cases, get_elem?,
}
use cpa_plugin_commandcode.Base.Trim.{trim_space}
use cpa_plugin_commandcode.Config.{ApiKeyEntry, PluginConfig}
use cpa_plugin_commandcode.Pool.{
  Auth, Net, Error, members, Transport, Doer, host_doer, std_doer, proxy_transport, Clients,
  client_at, client_for,
}
use cpa_plugin_commandcode.Pool.Members.{proxied_members-eq}

module _ (net : Net) (c : PluginConfig) where
  -- A client at an index was built from the proxy of a member that some request sees there.
  pub record IsBuilt (i : ℕ) (t : Transport net) : Type 0 where
    pub req : Auth
    pub member : ApiKeyEntry
    pub seen : get_elem? (members (some c) req) i ≡ some member
    pub proxied : is_empty (trim_space member.proxy_url) ≡ false
    pub built : proxy_transport net (trim_space member.proxy_url) ≡ inr t

  abbrev pub IsCoherent : Clients net → Type 0
  IsCoherent clients = (i : ℕ) (t : Transport net) → client_at net i clients ≡ some t → IsBuilt i t

  -- What an answer of `clientFor` may be for a member: the host's client exactly for a member with
  -- no proxy, and else a client with the transport of the member's own proxy. An error says that the
  -- host's client is missing, or why no transport could be built.
  abbrev pub Serves : ApiKeyEntry → Bool → Error ⊎ Doer net → Type 0
  Serves m host (inl e) =
      ((host ≡ false) × (is_empty (trim_space m.proxy_url) ≡ true))
      ⊎ ((is_empty (trim_space m.proxy_url) ≡ false)
          × (proxy_transport net (trim_space m.proxy_url) ≡ inl e))
  Serves m host (inr host_doer) = (host ≡ true) × (is_empty (trim_space m.proxy_url) ≡ true)
  Serves m host (inr (std_doer t)) =
      (is_empty (trim_space m.proxy_url) ≡ false)
      × (proxy_transport net (trim_space m.proxy_url) ≡ inr t)

  trim-ne-nil : (s : Bytes) → is_empty (trim_space s) ≡ false → s ≢ []
  unfolding trim_space
  trim-ne-nil [] h = absurd (cc h)
  trim-ne-nil (x ∷ s) h = cc

  pub IsBuilt-same :
      (req : Auth) (i : ℕ) (m : ApiKeyEntry) (t : Transport net)
      → get_elem? (members (some c) req) i ≡ some m
      → is_empty (trim_space m.proxy_url) ≡ false
      → IsBuilt i t
      → proxy_transport net (trim_space m.proxy_url) ≡ inr t
  IsBuilt-same req i m t seen proxied b =
      let same =
        proxied_members-eq c b.req req i b.seen seen (trim-ne-nil _ b.proxied)
          (trim-ne-nil _ proxied) in
      rw same at b.built

  -- The branches of `clientFor`.
  client_for_bare :
      (i : ℕ) (m : ApiKeyEntry) (host : Bool) (clients : Clients net)
      → is_empty (trim_space m.proxy_url) ≡ true
      → Serves m host (client_for net i m host clients).0
        × ((client_for net i m host clients).1 ≡ clients)
  unfolding client_for
  client_for_bare i m true clients bare = rw bare ((refl, bare), refl)
  client_for_bare i m false clients bare = rw bare (inl (refl, bare), refl)

  pub client_for_kept :
      (i : ℕ) (m : ApiKeyEntry) (host : Bool) (clients : Clients net) (t : Transport net)
      → is_empty (trim_space m.proxy_url) ≡ false
      → client_at net i clients ≡ some t
      → client_for net i m host clients ≡ (inr (std_doer t), clients)
  unfolding client_for
  client_for_kept i m host clients t proxied kept = rw (proxied, kept)

  pub client_for_built :
      (i : ℕ) (m : ApiKeyEntry) (host : Bool) (clients : Clients net) (t : Transport net)
      → is_empty (trim_space m.proxy_url) ≡ false
      → client_at net i clients ≡ none
      → proxy_transport net (trim_space m.proxy_url) ≡ inr t
      → client_for net i m host clients ≡ (inr (std_doer t), (i, t) ∷ clients)
  unfolding client_for
  client_for_built i m host clients t proxied new built = rw (proxied, new, built)

  pub client_for_refused :
      (i : ℕ) (m : ApiKeyEntry) (host : Bool) (clients : Clients net) (e : Error)
      → is_empty (trim_space m.proxy_url) ≡ false
      → client_at net i clients ≡ none
      → proxy_transport net (trim_space m.proxy_url) ≡ inl e
      → client_for net i m host clients ≡ (inl e, clients)
  unfolding client_for
  client_for_refused i m host clients e proxied new refused = rw (proxied, new, refused)

  client_at-cons :
      (i j : ℕ) (t u : Transport net) (clients : Clients net)
      → client_at net j ((i, t) ∷ clients) ≡ some u
      → ((i ≡ j) × (t ≡ u)) ⊎ (client_at net j clients ≡ some u)
  unfolding client_at
  client_at-cons i j t u clients h = ground arith

  IsCoherent-cons :
      (i : ℕ) (t : Transport net) (clients : Clients net)
      → IsBuilt i t
      → IsCoherent clients
      → IsCoherent ((i, t) ∷ clients)
  IsCoherent-cons i t clients b coherent j u h = elim (client_at-cons i j t u clients h) [
    | inl (same_i, same_t) ↦ subst₂ (λ k v. IsBuilt k v) same_i same_t b
    | inr older ↦ coherent j u older
  ]

  -- One call of `clientFor` for a member that a request sees at an index: the answer serves that
  -- member, and the kept clients stay coherent.
  pub client_for-IsCoherent :
      (req : Auth) (i : ℕ) (m : ApiKeyEntry) (host : Bool) (clients : Clients net)
      → get_elem? (members (some c) req) i ≡ some m
      → IsCoherent clients
      → Serves m host (client_for net i m host clients).0
        × IsCoherent (client_for net i m host clients).1
  client_for-IsCoherent req i m host clients seen coherent =
      elim (Bool-cases (is_empty (trim_space m.proxy_url))) [
        | inl bare ↦
            let (serves, same) = client_for_bare i m host clients bare in (serves, rw same coherent)
        | inr proxied ↦ elim (Option-cases (client_at net i clients)) [
          | inr (t, kept) ↦
              rw (client_for_kept i m host clients t proxied kept)
                ((proxied, IsBuilt-same req i m t seen proxied (coherent i t kept)), coherent)
          | inl new ↦ fresh proxied new (proxy_transport net (trim_space m.proxy_url)) refl
        ]
      ]
    where
      fresh :
          is_empty (trim_space m.proxy_url) ≡ false
          → client_at net i clients ≡ none
          → (r : Error ⊎ Transport net) → proxy_transport net (trim_space m.proxy_url) ≡ r
          → Serves m host (client_for net i m host clients).0
            × IsCoherent (client_for net i m host clients).1
      fresh proxied new (inl e) refused =
          rw (client_for_refused i m host clients e proxied new refused)
            (inr (proxied, refused), coherent)
      fresh proxied new (inr t) built = rw (client_for_built i m host clients t proxied new built) (
        (proxied, built),
        IsCoherent-cons i t clients
            (record { req = req; member = m; seen = seen; proxied = proxied; built = built })
            coherent,
      )

  -- The clients that a pool may hold: none at first, and then what calls of `clientFor` leave
  -- behind, each for a member that its request sees at the index.
  pub data Reach : Clients net → Type 0 where
    start : Reach []
    call :
        {clients : Clients net} (req : Auth) (i : ℕ) (m : ApiKeyEntry) (host : Bool)
        → get_elem? (members (some c) req) i ≡ some m
        → Reach clients
        → Reach (client_for net i m host clients).1

  pub Reach-IsCoherent : {clients : Clients net} → Reach clients → IsCoherent clients
  Reach-IsCoherent start = λ i t h. absurd (unfold client_at in cc h)
  Reach-IsCoherent (call {clients} req i m host seen r) =
      (client_for-IsCoherent req i m host clients seen (Reach-IsCoherent r)).1

  -- Whatever calls came before, and whichever credentials their requests carried, `clientFor` gives
  -- a member with a proxy a client with the transport of its own proxy URL, and a member without
  -- one the host's client. It fails only for a member without a proxy where there is no host client,
  -- and for a proxy URL from which no transport can be built, with the error of building it.
  pub client_for-Serves :
      {clients : Clients net} (req : Auth) (i : ℕ) (m : ApiKeyEntry) (host : Bool)
      → get_elem? (members (some c) req) i ≡ some m
      → Reach clients
      → Serves m host (client_for net i m host clients).0
  client_for-Serves {clients} req i m host seen r =
      (client_for-IsCoherent req i m host clients seen (Reach-IsCoherent r)).0

-- ===== src/Pool/Members.antt =====
-- Which entries are members of the pool.
use mathlib.Core.Bool.{false≢true}
use mathlib.Core.List.{Memᴰ}
use cpa_plugin_commandcode.Base.{
  ℕ, zero, suc, Bytes, codes, Bool, true, false, Option, none, some, List, [], ◌∷◌, All, is_empty,
  if◌then◌else◌, ◌≡◌, ◌≢◌, ◌↔◌, ◌⊎◌, inl, inr, refl, sym, ◌∙◌, arith, Bool-cases, get_elem?,
}
use cpa_plugin_commandcode.Base.Trim.{trim_space, trim_space_idem}
use cpa_plugin_commandcode.Base.Dict.{lookup}
use cpa_plugin_commandcode.Config.{ApiKeyEntry, PluginConfig, or_else}
use cpa_plugin_commandcode.Pool.{
  Auth, has_key, usable, defined, single, string_value, auth_members, fallback, members,
}

-- A member has a key and is not switched off.
abbrev pub IsUsable : ApiKeyEntry → Type 0
IsUsable m = (has_key m ≡ true) × (m.disabled ≡ false)

usable-IsUsable : (es : List ApiKeyEntry) → All IsUsable (usable es)
unfolding usable
usable-IsUsable [] = tt
usable-IsUsable (en ∷ es) = ground (arith, usable-IsUsable es)

single-IsUsable : (k : Bytes) → is_empty (trim_space k) ≡ false → IsUsable (single (trim_space k))
single-IsUsable k h = rw (trim_space_idem k, h) (refl, refl)

-- What stands in for a pool: a single usable member with no proxy, or none.
abbrev IsFallback : List ApiKeyEntry → Type 0
IsFallback ms = All (λ m. IsUsable m × (m.proxy_url ≡ [])) ms

auth_members-IsFallback : (req : Auth) → IsFallback (auth_members req)
unfolding auth_members
auth_members-IsFallback req =
    let a = or_else (lookup (codes "api_key") req.attributes) [] in
    let b = string_value (lookup (codes "api_key") req.metadata) in
    elim (Bool-cases (is_empty (trim_space a))) [
      | inr full ↦ rw full ((single-IsUsable a full, refl), tt)
      | inl blank ↦ elim (Bool-cases (is_empty (trim_space b))) [
        | inr full ↦ rw (blank, full) ((single-IsUsable b full, refl), tt)
        | inl blank' ↦ rw (blank, blank') tt
      ]
    ]

fallback-IsFallback : (c : Option PluginConfig) (req : Auth) → IsFallback (fallback c req)
unfolding fallback
fallback-IsFallback none req = auth_members-IsFallback req
fallback-IsFallback (some c) req = elim (Bool-cases (is_empty (trim_space c.api_key))) [
  | inr full ↦ rw full ((single-IsUsable c.api_key full, refl), tt)
  | inl blank ↦ rw blank (auth_members-IsFallback req)
]

-- One round of the loop.
usable-cons :
    (en : ApiKeyEntry) (es : List ApiKeyEntry)
    → (IsUsable en × (usable (en ∷ es) ≡ en ∷ usable es))
      ⊎ ((¬ IsUsable en) × (usable (en ∷ es) ≡ usable es))
unfolding usable
usable-cons en es = ground arith

usable_sound :
    (es : List ApiKeyEntry) (m : ApiKeyEntry) → Memᴰ m (usable es) → Memᴰ m es × IsUsable m
usable_sound [] m h = unfold usable in elim h [ ]
usable_sound (en ∷ es) m h = elim (usable-cons en es) [
  | inr (out, same) ↦
      let (there, good) = usable_sound es m (rw same at h) in (Memᴰ.tail there, good)
  | inl (good, kept) ↦ here-or-there good (usable_sound es m) (rw kept at h)
]
  where
    here-or-there :
        IsUsable en
        → (Memᴰ m (usable es) → Memᴰ m es × IsUsable m)
        → Memᴰ m (en ∷ usable es)
        → Memᴰ m (en ∷ es) × IsUsable m
    here-or-there good ih (Memᴰ.head e) = (Memᴰ.head e, rw e good)
    here-or-there good ih (Memᴰ.tail t) = let (there, g) = ih t in (Memᴰ.tail there, g)

usable_complete :
    (es : List ApiKeyEntry) (m : ApiKeyEntry) → Memᴰ m es → IsUsable m → Memᴰ m (usable es)
usable_complete [] m h good = elim h [ ]
usable_complete (en ∷ es) m (Memᴰ.head e) good = elim (usable-cons en es) [
  | inl (_, kept) ↦ rw kept (Memᴰ.head e)
  | inr (out, same) ↦ absurd (out (rw e at good))
]
usable_complete (en ∷ es) m (Memᴰ.tail t) good = elim (usable-cons en es) [
  | inl (_, kept) ↦ rw kept (Memᴰ.tail (usable_complete es m t good))
  | inr (out, same) ↦ rw same (usable_complete es m t good)
]

-- The choice at the end of `members`, on its parts.
choice-cases :
    (out rest : List ApiKeyEntry) (found : Bool)
    → let ms = if is_empty out then (if found then [] else rest) else out in
      (ms ≡ out) ⊎ ((found ≡ false) × (ms ≡ rest))
choice-cases [] rest true = inl refl
choice-cases [] rest false = inr (refl, refl)
choice-cases (m ∷ out) rest found = inl refl

defined-cases :
    (c : PluginConfig) (req : Auth)
    → (members (some c) req ≡ usable c.api_keys)
      ⊎ ((defined c.api_keys ≡ false) × (members (some c) req ≡ fallback (some c) req))
unfolding members
defined-cases c req = choice-cases (usable c.api_keys) (fallback (some c) req) (defined c.api_keys)

-- An entry with a key, enabled or not, is enough for the pool to count as configured.
defined-Memᴰ :
    (es : List ApiKeyEntry) (en : ApiKeyEntry)
    → Memᴰ en es
    → is_empty (trim_space en.key) ≡ false
    → defined es ≡ true
unfolding defined
defined-Memᴰ [] en h full = elim h [ ]
defined-Memᴰ (en' ∷ es) en (Memᴰ.head e) full =
    let full' : is_empty (trim_space en'.key) ≡ false = cc in rw full' refl
defined-Memᴰ (en' ∷ es) en (Memᴰ.tail t) full =
    let later = defined-Memᴰ es en t full in ground arith

-- If any configured entry has a key, switched off or not, then for every request the members are the
-- configured entries that have a key and are enabled, and no others. There are none exactly if every
-- entry with a key is switched off: neither the legacy key nor the request's own credentials stand in.
pub members-defined :
    (c : PluginConfig) (en : ApiKeyEntry)
    → Memᴰ en c.api_keys
    → is_empty (trim_space en.key) ≡ false
    → (req : Auth)
    → ((m : ApiKeyEntry)
        → Memᴰ m (members (some c) req)
          ↔ (Memᴰ m c.api_keys × (is_empty (trim_space m.key) ≡ false) × (m.disabled ≡ false)))
      × ((members (some c) req ≡ []) ↔ (
          (m : ApiKeyEntry)
          → Memᴰ m c.api_keys
          → is_empty (trim_space m.key) ≡ false
          → m.disabled ≡ true))
members-defined c en h full req = elim (defined-cases c req) [
  | inl pool ↦ (
    exactly pool,
    (
      λ empty m known keyed. is_off (exactly pool m) empty known keyed,
      λ all_off. nobody _ (λ m there. switched_off all_off (exactly pool m) there),
    ),
  )
  | inr (undefined, _) ↦ absurd (false≢true (sym undefined ∙ defined-Memᴰ c.api_keys en h full))
]
  where
    exactly :
        members (some c) req ≡ usable c.api_keys
        → (m : ApiKeyEntry)
        → Memᴰ m (members (some c) req)
          ↔ (Memᴰ m c.api_keys × (is_empty (trim_space m.key) ≡ false) × (m.disabled ≡ false))
    exactly pool m = rw pool (
      λ p. let (there, good) = usable_sound c.api_keys m p in (there, ground arith, good.1),
      λ p. usable_complete c.api_keys m p.0 (rw p.1 refl, p.2),
    )

    not_there : {m : ApiKeyEntry} {A : Type 0} → Memᴰ m [] → A
    not_there h = elim h [ ]

    is_off :
        {m : ApiKeyEntry}
        → (Memᴰ m (members (some c) req)
            ↔ (Memᴰ m c.api_keys × (is_empty (trim_space m.key) ≡ false) × (m.disabled ≡ false)))
        → members (some c) req ≡ []
        → Memᴰ m c.api_keys
        → is_empty (trim_space m.key) ≡ false
        → m.disabled ≡ true
    is_off {m} same empty known keyed = elim (Bool-cases m.disabled) [
      | inl disabled ↦ disabled
      | inr on ↦ not_there (rw empty at (same.1 (known, keyed, on)))
    ]

    nobody : (ms : List ApiKeyEntry) → ((m : ApiKeyEntry) → ¬ Memᴰ m ms) → ms ≡ []
    nobody [] none_there = refl
    nobody (m ∷ ms) none_there = absurd (none_there m (Memᴰ.head refl))

    switched_off :
        ((m : ApiKeyEntry)
          → Memᴰ m c.api_keys
          → is_empty (trim_space m.key) ≡ false
          → m.disabled ≡ true)
        → {m : ApiKeyEntry}
        → (Memᴰ m (members (some c) req)
            ↔ (Memᴰ m c.api_keys × (is_empty (trim_space m.key) ≡ false) × (m.disabled ≡ false)))
        → ¬ Memᴰ m (members (some c) req)
    switched_off off {m} same there =
        let (known, keyed, on) = same.0 there in false≢true (sym on ∙ off m known keyed)

All-IsUsable_of_fallback : (ms : List ApiKeyEntry) → IsFallback ms → All IsUsable ms
All-IsUsable_of_fallback [] h = tt
All-IsUsable_of_fallback (m ∷ ms) ((good, _), h) = (good, All-IsUsable_of_fallback ms h)

-- Every member has a key that is not blank, and none is switched off.
pub members-IsUsable : (c : Option PluginConfig) (req : Auth) → All IsUsable (members c req)
members-IsUsable none req =
    unfold members in All-IsUsable_of_fallback _ (fallback-IsFallback none req)
members-IsUsable (some c) req = elim (defined-cases c req) [
  | inl pool ↦ rw pool (usable-IsUsable c.api_keys)
  | inr (_, same) ↦ rw same (All-IsUsable_of_fallback _ (fallback-IsFallback (some c) req))
]

-- A member with a proxy stands in the configured pool.
no_proxy :
    (ms : List ApiKeyEntry) (i : ℕ) {m : ApiKeyEntry}
    → IsFallback ms
    → get_elem? ms i ≡ some m
    → m.proxy_url ≡ []
no_proxy [] i h e = absurd (cc)
no_proxy (m ∷ ms) zero ((_, bare), h) e = cc
no_proxy (m ∷ ms) (suc i) (_, h) e = no_proxy ms i h e

proxied-pool :
    (c : PluginConfig) (req : Auth) (i : ℕ) {m : ApiKeyEntry}
    → get_elem? (members (some c) req) i ≡ some m
    → m.proxy_url ≢ []
    → get_elem? (usable c.api_keys) i ≡ some m
proxied-pool c req i e h = elim (defined-cases c req) [
  | inl pool ↦ rw pool at e
  | inr (_, same) ↦ absurd (h (no_proxy _ i (fallback-IsFallback (some c) req) (rw same at e)))
]

-- Two requests under one configuration see the same member at an index, if both see one that has a
-- proxy there: the clients that are kept by index are never mixed up.
pub proxied_members-eq :
    (c : PluginConfig) (req req' : Auth) (i : ℕ) {m m' : ApiKeyEntry}
    → get_elem? (members (some c) req) i ≡ some m
    → get_elem? (members (some c) req') i ≡ some m'
    → m.proxy_url ≢ []
    → m'.proxy_url ≢ []
    → m ≡ m'
proxied_members-eq c req req' i e e' h h' =
    cc (proxied-pool c req i e h, proxied-pool c req' i e' h')

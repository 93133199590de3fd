-- ===== src/Providers/Registry/Enabled.antt =====
-- Disabled providers: the registry's invariant, that every operation keeps it, and that no
-- resolution gives credentials of a disabled provider.
use rkgw.Base.{
  sym, subst, ℕ, String, Bool, true, false, List, [], ◌∷◌, Option, none, some, arith, ◌≡◌, ◌⊎◌, inl,
  inr, refl, ◌∙◌, ◌==◌, if◌then◌else◌, unwrap_or, Bool-cases, Option-cases, string_eq, nat_eq,
}
use rkgw.Base.Int.{ℤ, pos}
use rkgw.Base.Maps.{Map, lookup, lookup-insert_cases, lookup-remove}
use rkgw.Base.Sets.{contains, with, contains-without, contains-with}
use rkgw.Providers.Id.{ProviderId, kiro, copilot, provider_eq, as_str, from_str}
use rkgw.Providers.Registry.{
  ProviderCredentials, CacheEntry, ProviderRegistry, Db, Clock, native_provider, add_setting,
  disabled_in, set_provider_enabled, load_disabled_providers_from_db, invalidate,
}
use rkgw.Providers.Registry.Resolve.{
  Route, UserData, choose, pick_best_provider, resolve_from_proxy_creds_filtered, route_for,
  remove_disabled, cached_entry, user_entry, store_user, load_and_route, resolve_provider,
}
use rkgw.Providers.Registry.Valid.{
  IsClean, as_str-injective, remove_disabled-IsClean, load_user_data-IsClean,
}

-- What holds between operations: each cached credential stands under its provider's name, each
-- proxy credential under its provider, and Kiro is never disabled.
pub record IsValid (r : ProviderRegistry) : Type 0 where
  pub cached :
      (user_id : ℕ) (entry : CacheEntry)
      → lookup user_id r.cache ≡ some entry
      → IsClean [] entry.credentials
  pub proxied :
      (p : ProviderId) (c : ProviderCredentials)
      → lookup p r.proxy_credentials ≡ some c
      → c.provider ≡ p
  pub kiro_enabled : contains r.disabled_providers kiro ≡ false

-- A route is sound if its credentials are those of the routed provider, and that is enabled.
abbrev pub IsSound : List ProviderId → Route → Type 0
IsSound disabled (p, creds) =
    (c : ProviderCredentials)
    → creds ≡ some c
    → (c.provider ≡ p) × (contains disabled c.provider ≡ false)

-- The chosen credentials are one of the two that were found.
choose_cases :
    (native : ProviderId) (own other : Option ProviderCredentials) (m n : ℤ)
    (c : ProviderCredentials)
    → (choose native own other m n).1 ≡ some c
    → ((own ≡ some c) × ((choose native own other m n).0 ≡ native))
      ⊎ ((other ≡ some c) × ((choose native own other m n).0 ≡ copilot))
unfolding choose
choose_cases native own other m n c e = ground arith

module _ (disabled : List ProviderId) (native : ProviderId) (creds : Map String ProviderCredentials)
    (priority : Map String ℤ) (clean : IsClean disabled creds) where
  found-IsSound :
      (p : ProviderId) (d : ProviderCredentials)
      → lookup (as_str p) creds ≡ some d
      → IsSound disabled (p, some d)
  found-IsSound p d found c e =
      let (named, enabled) = clean (as_str p) c (found ∙ e) in
      (as_str-injective c.provider p named, enabled)

  pick_best_provider-IsSound : IsSound disabled (pick_best_provider native creds priority)
  unfolding pick_best_provider
  pick_best_provider-IsSound c e =
      elim (choose_cases native _ _ (unwrap_or (lookup (as_str native) priority) (pos 0))
        (unwrap_or (lookup "copilot" priority) (pos 1)) c e) [
          | inl (found, here) ↦ rw here (found-IsSound native c found c refl)
          | inr (found, here) ↦ rw here (found-IsSound copilot c (unfold as_str in found) c refl)
        ]

  route_for-IsSound :
      (explicit : Bool) → IsSound disabled (route_for native explicit creds priority)
  unfolding route_for
  route_for-IsSound true c e = found-IsSound native c e c refl
  route_for-IsSound false c e = pick_best_provider-IsSound c e

IsClean-none :
    (disabled : List ProviderId) (creds : Map String ProviderCredentials)
    → IsClean disabled creds
    → IsClean [] creds
unfolding contains
IsClean-none disabled creds h name c e = ((h name c e).0, refl)

module _ (r : ProviderRegistry) (v : IsValid r) where
  proxy_route-IsSound :
      (model : String)
      → IsSound r.disabled_providers
          (resolve_from_proxy_creds_filtered r model r.disabled_providers)
  unfolding resolve_from_proxy_creds_filtered
  proxy_route-IsSound model c e = elim (Option-cases (native_provider model)) [
    | inl unknown ↦ absurd (ground arith)
    | inr ((native, explicit), known) ↦ ground (arith, v.proxied native c)
  ]

  cached_route-IsSound :
      (user_id : ℕ) (native : ProviderId) (explicit : Bool) (clock : Clock) {entry : CacheEntry}
      → cached_entry r user_id clock ≡ some entry
      → IsSound r.disabled_providers (
          route_for native explicit
            (remove_disabled r.disabled_providers entry.credentials)
            entry.priority)
  unfolding cached_entry
  cached_route-IsSound user_id native explicit clock {entry} e =
      route_for-IsSound r.disabled_providers native _ entry.priority
        (remove_disabled-IsClean r.disabled_providers entry.credentials
          (v.cached user_id entry (ground arith)))
        explicit

  -- From a valid registry, whatever `resolve_provider` answers with a database at hand, the credentials in it are the
  -- routed provider's, and that provider is not disabled.
  pub resolve_provider-IsSound :
      (user_id : Option ℕ) (model : String) (db : Db) (clock : Clock)
      → IsSound r.disabled_providers (resolve_provider r user_id model (some db) clock).1
  unfolding resolve_provider load_and_route
  resolve_provider-IsSound none model db clock = proxy_route-IsSound model
  resolve_provider-IsSound (some user_id) model db clock =
      elim (Option-cases (native_provider model)) [
        | inl e ↦ rw (e, resolve_provider) (λ c h. absurd (cc))
        | inr ((native, explicit), e) ↦ elim (Option-cases (cached_entry r user_id clock)) [
          | inl miss ↦
              rw (e, miss, resolve_provider)
                (route_for-IsSound r.disabled_providers native _ _
                  (load_user_data-IsClean r user_id db clock.utc) explicit)
          | inr (entry, hit) ↦
              rw (e, hit, resolve_provider) (cached_route-IsSound user_id native explicit clock hit)
        ]
      ]

-- The guard on Kiro keeps it out of the set.
insert_other :
    (set : List ProviderId) (p : ProviderId)
    → contains set kiro ≡ false
    → contains (if p == kiro then set else with p set) kiro ≡ false
insert_other set p h = elim (Bool-cases (p == kiro)) [
  | inl is_kiro ↦ rw is_kiro h
  | inr other ↦ rw (other, contains-with p kiro set) (rw other h)
]

add_setting-kiro :
    (set : List ProviderId) (name : String) (enabled : Bool)
    → contains set kiro ≡ false
    → contains (add_setting set name enabled) kiro ≡ false
unfolding add_setting
add_setting-kiro set name true h = h
add_setting-kiro set name false h = elim (Option-cases (from_str name)) [
  | inl e ↦ rw (e, add_setting) h
  | inr (p, e) ↦ rw (e, add_setting) (insert_other set p h)
]

disabled_in-kiro :
    (set : List ProviderId) (rows : List (String × Bool))
    → contains set kiro ≡ false
    → contains (disabled_in set rows) kiro ≡ false
unfolding disabled_in
disabled_in-kiro set [] h = h
disabled_in-kiro set ((name, enabled) ∷ rows) h =
    disabled_in-kiro (add_setting set name enabled) rows (add_setting-kiro set name enabled h)

module _ {r : ProviderRegistry} (v : IsValid r) where
  set_provider_enabled-IsValid :
      (p : ProviderId) (enabled : Bool) → IsValid (set_provider_enabled r p enabled)
  unfolding set_provider_enabled
  set_provider_enabled-IsValid p true = elim (Bool-cases (p == kiro)) [
    | inl is_kiro ↦ rw is_kiro v
    | inr other ↦ rw other (record {
      cached = v.cached;
      proxied = v.proxied;
      kiro_enabled = rw (contains-without p kiro r.disabled_providers) (rw other v.kiro_enabled);
    })
  ]
  set_provider_enabled-IsValid p false = elim (Bool-cases (p == kiro)) [
    | inl is_kiro ↦ rw is_kiro v
    | inr other ↦ rw other (record {
      cached = v.cached;
      proxied = v.proxied;
      kiro_enabled = rw (contains-with p kiro r.disabled_providers) (rw other v.kiro_enabled);
    })
  ]

  load_disabled-IsValid :
      (rows : Option (List (String × Bool))) → IsValid (load_disabled_providers_from_db r rows)
  unfolding load_disabled_providers_from_db
  load_disabled-IsValid none = v
  load_disabled-IsValid (some rows) = record {
    cached = v.cached;
    proxied = v.proxied;
    kiro_enabled = disabled_in-kiro [] rows (unfold contains in refl);
  }

  invalidate-IsValid : (user_id : ℕ) → IsValid (invalidate r user_id)
  unfolding invalidate
  invalidate-IsValid user_id = record {
    cached = λ uid entry e. v.cached uid entry (ground (arith, lookup-remove user_id uid r.cache));
    proxied = v.proxied;
    kiro_enabled = v.kiro_enabled;
  }

  store_user-IsValid :
      (user_id : ℕ) (clock : Clock) (u : UserData) (priority : Map String ℤ)
      → IsClean [] u.credentials
      → IsValid (store_user r user_id clock u priority)
  unfolding store_user
  store_user-IsValid user_id clock u priority clean = record {
    cached = λ uid entry e.
        elim (lookup-insert_cases user_id uid (user_entry clock u priority) r.cache e) [
          | inl (_, new) ↦ subst (λ (x : CacheEntry). IsClean [] x.credentials) (sym new) clean
          | inr old ↦ v.cached uid entry old
        ];
    proxied = v.proxied;
    kiro_enabled = v.kiro_enabled;
  }

  load_and_route-IsValid :
      (user_id : ℕ) (model : String) (native : ProviderId) (explicit : Bool) (db : Option Db)
      (clock : Clock)
      → IsValid (load_and_route r user_id model native explicit db clock).0
  unfolding load_and_route
  load_and_route-IsValid user_id model native explicit none clock = v
  load_and_route-IsValid user_id model native explicit (some db) clock =
      store_user-IsValid user_id clock _ _
        (IsClean-none r.disabled_providers _ (load_user_data-IsClean r user_id db clock.utc))

  pub resolve_provider-IsValid :
      (user_id : Option ℕ) (model : String) (db : Option Db) (clock : Clock)
      → IsValid (resolve_provider r user_id model db clock).0
  unfolding resolve_provider
  resolve_provider-IsValid none model db clock = v
  resolve_provider-IsValid (some user_id) model db clock =
      elim (Option-cases (native_provider model)) [
        | inl e ↦ rw (e, resolve_provider) v
        | inr ((native, explicit), e) ↦ elim (Option-cases (cached_entry r user_id clock)) [
          | inl miss ↦
              rw (e, miss, resolve_provider)
                (load_and_route-IsValid user_id model native explicit db clock)
          | inr (entry, hit) ↦ rw (e, hit, resolve_provider) v
        ]
      ]

-- One operation on the registry, by a handler, an admin or the start-up code.
pub data Step (r : ProviderRegistry) : ProviderRegistry → Type 0 where
  resolves :
      (user_id : Option ℕ) (model : String) (db : Option Db) (clock : Clock)
      → Step r (resolve_provider r user_id model db clock).0
  enables : (p : ProviderId) (enabled : Bool) → Step r (set_provider_enabled r p enabled)
  loads : (rows : Option (List (String × Bool))) → Step r (load_disabled_providers_from_db r rows)
  invalidates : (user_id : ℕ) → Step r (invalidate r user_id)

pub data Reach (r : ProviderRegistry) : ProviderRegistry → Type 0 where
  here : Reach r r
  next : {s u : ProviderRegistry} → Reach r s → Step s u → Reach r u

Step-IsValid : {r s : ProviderRegistry} → IsValid r → Step r s → IsValid s
Step-IsValid v (resolves user_id model db clock) = resolve_provider-IsValid v user_id model db clock
Step-IsValid v (enables p enabled) = set_provider_enabled-IsValid v p enabled
Step-IsValid v (loads rows) = load_disabled-IsValid v rows
Step-IsValid v (invalidates user_id) = invalidate-IsValid v user_id

-- Whatever sequence of operations runs from a valid registry, the registry stays valid: cached
-- credentials stand under their provider's name, and Kiro is not disabled.
pub Reach-IsValid : {r s : ProviderRegistry} → IsValid r → Reach r s → IsValid s
Reach-IsValid v here = v
Reach-IsValid v (next path step) = Step-IsValid (Reach-IsValid v path) step

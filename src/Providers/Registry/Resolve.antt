-- ===== src/Providers/Registry/Resolve.antt =====
-- backend/src/providers/registry.rs: `resolve_provider` and the functions below it.
use rkgw.Base.{
  ℕ, ◌-◌, String, Bool, true, false, List, [], ◌∷◌, Option, none, some, ltb, ◌==◌, if◌then◌else◌,
  unwrap_or, is_empty, string_eq, nat_eq,
}
use rkgw.Base.Int.{ℤ, pos, ltb_ℤ}
use rkgw.Base.Maps.{Map, lookup, insert, remove}
use rkgw.Base.Sets.{contains}
use rkgw.Providers.Id.{
  ProviderId, kiro, anthropic, open_ai_codex, copilot, provider_eq, as_str, all_visible,
}
use rkgw.Providers.Registry.{
  ProviderCredentials, CacheEntry, ProviderRegistry, TokenRow, CopilotRow, Db, Clock, cache_ttl,
  native_provider,
}

abbrev pub Route : Type 0
Route = ProviderId × Option ProviderCredentials

unfoldable pub choose :
    ProviderId → Option ProviderCredentials → Option ProviderCredentials → ℤ → ℤ → Route
choose native none none native_pri copilot_pri = (kiro, none)
choose native (some own) none native_pri copilot_pri = (native, some own)
choose native none (some other) native_pri copilot_pri = (copilot, some other)
choose native (some own) (some other) native_pri copilot_pri =
    if ltb_ℤ copilot_pri native_pri then (copilot, some other) else (native, some own)

unfoldable pub pick_best_provider :
    ProviderId → Map String ProviderCredentials → Map String ℤ → Route
unfolding choose
pick_best_provider native credentials priority =
    choose native (lookup (as_str native) credentials) (lookup "copilot" credentials)
      (unwrap_or (lookup (as_str native) priority) (pos 0))
      (unwrap_or (lookup "copilot" priority) (pos 1))

unfoldable pub resolve_from_proxy_creds_filtered :
    ProviderRegistry → String → List ProviderId → Route
resolve_from_proxy_creds_filtered r model disabled =
    if is_empty r.proxy_credentials then (kiro, none) else elim (native_provider model) [
      | none ↦ (kiro, none)
      | some (native, explicit) ↦
          (if contains disabled native
            then if explicit then (native, none) else (kiro, none)
            else elim (lookup native r.proxy_credentials) [
              | some cred ↦ (native, some cred)
              | none ↦ if explicit then (native, none) else (kiro, none)
            ])
    ]

unfoldable pub resolve_from_proxy_creds : ProviderRegistry → String → Route
unfolding resolve_from_proxy_creds_filtered
resolve_from_proxy_creds r model = resolve_from_proxy_creds_filtered r model []

-- `rows.into_iter().collect()` into a map: of two rows with one key the later stays.
unfoldable pub collect : Map String ℤ → List (String × ℤ) → Map String ℤ
collect m [] = m
collect m ((k, v) ∷ rows) = collect (insert k v m) rows

-- What a user's load gathers: credentials and expiry times by provider.
pub record UserData : Type 0 where
  pub credentials : Map String ProviderCredentials
  pub expires_at : Map String ℕ

-- The providers whose tokens the loop of `load_user_data` takes from the tokens table.
abbrev pub direct_provider : String → Option ProviderId
direct_provider name =
    if name == "anthropic"
    then some anthropic
    else if name == "openai_codex"
    then some open_ai_codex
    else none

unfoldable pub add_token : ProviderId → TokenRow → UserData → UserData
add_token pid row u = elim (direct_provider (as_str pid)) [
  | none ↦ u
  | some provider ↦ record {
    credentials =
        insert (as_str pid)
          (record {
            provider = provider;
            access_token = row.access_token;
            base_url = none;
            account_label = "default";
          })
          u.credentials;
    expires_at = insert (as_str pid) row.expires_at u.expires_at;
  }
]

-- One round of the loop over `ProviderId::all_visible()`.
unfoldable pub load_token : List ProviderId → ℕ → Db → ℕ → ProviderId → UserData → UserData
unfolding add_token
load_token disabled user_id db now pid u =
    if contains disabled pid then u else elim (db.get_user_provider_token user_id (as_str pid)) [
      | none ↦ u
      | some row ↦ if ltb now row.expires_at then add_token pid row u else u
    ]

-- A Copilot row is usable if it is complete and has not expired.
unfoldable pub copilot_creds : Option CopilotRow → ℕ → Option (ProviderCredentials × ℕ)
copilot_creds none now = none
copilot_creds (some row) now = elim row.copilot_token [
  | none ↦ none
  | some token ↦ elim row.base_url [
    | none ↦ none
    | some url ↦ elim row.expires_at [
      | none ↦ none
      | some expires_at ↦
          (if ltb now expires_at
            then some (
              record {
                provider = copilot;
                access_token = token;
                base_url = some url;
                account_label = "default";
              },
              expires_at,
            )
            else none)
    ]
  ]
]

unfoldable pub add_copilot : Option (ProviderCredentials × ℕ) → UserData → UserData
add_copilot none u = u
add_copilot (some (creds, expires_at)) u = record {
  credentials = insert "copilot" creds u.credentials;
  expires_at = insert "copilot" expires_at u.expires_at;
}

abbrev pub no_user_data : UserData
no_user_data = record { credentials = []; expires_at = [] }

unfoldable pub load_tokens : List ProviderId → ℕ → Db → ℕ → List ProviderId → UserData → UserData
unfolding load_token
load_tokens disabled user_id db now [] u = u
load_tokens disabled user_id db now (pid ∷ pids) u =
    load_tokens disabled user_id db now pids (load_token disabled user_id db now pid u)

unfoldable pub load_user_data : ProviderRegistry → ℕ → Db → ℕ → UserData × Map String ℤ
unfolding load_tokens add_copilot
load_user_data r user_id db now =
    let disabled = r.disabled_providers in
    let u = load_tokens disabled user_id db now all_visible no_user_data in
    (
      if contains disabled copilot
          then u
          else add_copilot (copilot_creds (db.get_copilot_tokens user_id) now) u,
      collect [] (unwrap_or (db.get_user_provider_priority user_id) []),
    )

-- `for pid in disabled.iter() { filtered_creds.remove(pid.as_str()) }`
unfoldable pub remove_disabled :
    List ProviderId → Map String ProviderCredentials → Map String ProviderCredentials
remove_disabled [] creds = creds
remove_disabled (pid ∷ disabled) creds = remove_disabled disabled (remove (as_str pid) creds)

-- An explicit prefix is binding; otherwise Copilot may serve the model too.
unfoldable pub route_for : ProviderId → Bool → Map String ProviderCredentials → Map String ℤ → Route
unfolding pick_best_provider
route_for native true creds priority = (native, lookup (as_str native) creds)
route_for native false creds priority = pick_best_provider native creds priority

-- A cache entry counts for `cache_ttl`.
unfoldable pub cached_entry : ProviderRegistry → ℕ → Clock → Option CacheEntry
cached_entry r user_id clock = elim (lookup user_id r.cache) [
  | none ↦ none
  | some entry ↦ if ltb (clock.instant - entry.cached_at) cache_ttl then some entry else none
]

unfoldable pub user_entry : Clock → UserData → Map String ℤ → CacheEntry
user_entry clock u priority = record {
  credentials = u.credentials;
  expires_at = u.expires_at;
  priority = priority;
  cached_at = clock.instant;
}

unfoldable pub store_user :
    ProviderRegistry → ℕ → Clock → UserData → Map String ℤ → ProviderRegistry
unfolding user_entry
store_user r user_id clock u priority = record r {
  cache = insert user_id (user_entry clock u priority) r.cache;
}

unfoldable pub load_and_route :
    ProviderRegistry → ℕ → String → ProviderId → Bool → Option Db → Clock → ProviderRegistry × Route
unfolding store_user
load_and_route r user_id model native explicit none clock = (r, resolve_from_proxy_creds r model)
load_and_route r user_id model native explicit (some db) clock =
    let (u, priority) = load_user_data r user_id db clock.utc in
    (store_user r user_id clock u priority, route_for native explicit u.credentials priority)

unfoldable pub resolve_provider :
    ProviderRegistry → Option ℕ → String → Option Db → Clock → ProviderRegistry × Route
unfolding load_and_route
resolve_provider r none model db clock =
    (r, resolve_from_proxy_creds_filtered r model r.disabled_providers)
resolve_provider r (some user_id) model db clock = elim (native_provider model) [
  | none ↦ (r, (kiro, none))
  | some (native, explicit) ↦ elim (cached_entry r user_id clock) [
    | none ↦ load_and_route r user_id model native explicit db clock
    | some entry ↦ (
      r,
      route_for native explicit (remove_disabled r.disabled_providers entry.credentials)
          entry.priority,
    )
  ]
]

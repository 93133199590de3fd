-- ===== src/Providers/Registry.antt =====
-- backend/src/providers/registry.rs: which provider and which account serve a request. The answers
-- of the database's queries are the fields of `Db`; a query that fails answers `none`. One reading
-- of each clock serves a whole operation.
pub mod Resolve
pub mod Balancing
pub mod Valid
pub mod Enabled
pub mod Balanced
mod Examples
use rkgw.Base.{
  ℕ, ◌-◌, ◌*◌, String, Bool, true, false, ◌&&◌, ◌||◌, not, List, [], ◌∷◌, Option, none, some, ltb,
  any, Eq, ◌==◌, if◌then◌else◌, is_some, unwrap_or, string_eq, nat_eq,
}
use rkgw.Base.Int.{ℤ, pos, ltb_ℤ}
use rkgw.Base.Maps.{Map, lookup, insert, remove}
use rkgw.Base.Sets.{contains, with, without}
use rkgw.Base.Text.{starts_with, split_once, is_empty_str}
use rkgw.Providers.Id.{
  ProviderId, kiro, anthropic, open_ai_codex, copilot, huawei_maas, provider_eq, as_str, from_str,
}

pub record ProviderCredentials : Type 0 where
  pub provider : ProviderId
  pub access_token : String
  pub base_url : Option String
  pub account_label : String

pub record CacheEntry : Type 0 where
  pub credentials : Map String ProviderCredentials
  pub expires_at : Map String ℕ
  pub priority : Map String ℤ
  pub cached_at : ℕ

-- `refresh_locks` serialises concurrent refreshes and holds no data.
pub record ProviderRegistry : Type 0 where
  pub cache : Map ℕ CacheEntry
  pub proxy_credentials : Map ProviderId ProviderCredentials
  pub disabled_providers : List ProviderId

-- A row of `user_provider_tokens`, one of `user_copilot_tokens` and one of the admin pool.
pub record TokenRow : Type 0 where
  pub access_token : String
  pub refresh_token : String
  pub expires_at : ℕ
  pub base_url : Option String
  pub account_label : String

pub record CopilotRow : Type 0 where
  pub copilot_token : Option String
  pub base_url : Option String
  pub expires_at : Option ℕ

pub record PoolRow : Type 0 where
  pub account_label : String
  pub api_key : String
  pub base_url : Option String

pub record Db : Type 0 where
  pub get_user_provider_token : ℕ → String → Option TokenRow
  pub get_all_user_provider_tokens : ℕ → String → Option (List TokenRow)
  pub get_copilot_tokens : ℕ → Option CopilotRow
  pub get_user_provider_priority : ℕ → Option (List (String × ℤ))
  pub get_admin_pool_accounts : String → Option (List PoolRow)

pub record Clock : Type 0 where
  pub utc : ℕ
  pub instant : ℕ

abbrev pub cache_ttl : ℕ
cache_ttl = 300 * 1_000_000_000

unfoldable pub parse_prefixed_model : String → Option (ProviderId × String)
parse_prefixed_model model = elim (split_once model b'/') [
  | none ↦ none
  | some (prefix, model_id) ↦
      (if is_empty_str model_id
        then none
        else elim (from_str prefix) [ none ↦ none | some provider ↦ some (provider, model_id) ])
]

unfoldable pub provider_for_model : String → Option ProviderId
provider_for_model model =
    if starts_with model "claude-"
    then some anthropic
    else if starts_with model "gpt-"
        || starts_with model "o1-"
        || starts_with model "o3-"
        || starts_with model "o4-"
        || starts_with model "chatgpt-"
    then some open_ai_codex
    else none

unfoldable pub removed_provider_for_model : String → Option String
removed_provider_for_model model =
    if starts_with model "qwen-"
      || starts_with model "qwen3-"
      || starts_with model "qwq-"
      || starts_with model "qwen/"
    then some "qwen"
    else if starts_with model "gemini-" || starts_with model "gemini/"
    then some "gemini"
    else none

-- The provider that a model's name asks for, and whether an explicit prefix asks for it.
unfoldable pub native_provider : String → Option (ProviderId × Bool)
native_provider model = elim (parse_prefixed_model model) [
  | some (provider, model_id) ↦ some (provider, true)
  | none ↦ elim (provider_for_model model) [ none ↦ none | some provider ↦ some (provider, false) ]
]

unfoldable pub invalidate : ProviderRegistry → ℕ → ProviderRegistry
invalidate r user_id = record r { cache = remove user_id r.cache }

unfoldable pub is_provider_enabled : ProviderRegistry → ProviderId → Bool
is_provider_enabled r p = if p == kiro then true else not (contains r.disabled_providers p)

unfoldable pub set_provider_enabled : ProviderRegistry → ProviderId → Bool → ProviderRegistry
set_provider_enabled r p enabled =
    if p == kiro
    then r
    else if enabled
    then record r { disabled_providers = without p r.disabled_providers }
    else record r { disabled_providers = with p r.disabled_providers }

unfoldable pub add_setting : List ProviderId → String → Bool → List ProviderId
add_setting set name true = set
add_setting set name false = elim (from_str name) [
  | none ↦ set
  | some p ↦ if p == kiro then set else with p set
]

-- The loop of `load_disabled_providers_from_db` over the rows of the settings table.
unfoldable pub disabled_in : List ProviderId → List (String × Bool) → List ProviderId
unfolding add_setting
disabled_in set [] = set
disabled_in set ((name, enabled) ∷ rows) = disabled_in (add_setting set name enabled) rows

-- `none` is the query's error: the set stays as it is.
unfoldable pub load_disabled_providers_from_db :
    ProviderRegistry → Option (List (String × Bool)) → ProviderRegistry
unfolding disabled_in
load_disabled_providers_from_db r none = r
load_disabled_providers_from_db r (some rows) = record r {
  disabled_providers = disabled_in [] rows;
}

-- ===== src/Providers/Registry/Examples.antt =====
-- Runs of the registry, and its theorems at concrete registries.
use rkgw.Base.{
  String, true, false, [], ◌∷◌, none, some, ◌≡◌, refl, get_elem?, ◌==◌, string_eq, if◌then◌else◌,
}
use rkgw.Base.Int.{pos}
use rkgw.Base.Maps.{lookup}
use rkgw.Base.Sets.{contains}
use rkgw.Base.Text.{split_once}
use rkgw.Providers.Id.{anthropic, copilot, as_str, from_str}
use rkgw.Providers.RateLimit.{AccountId}
use rkgw.Providers.RateLimit.Optimal.{is_limited}
use rkgw.Providers.RateLimit.Tiers.{IsPreferred}
use rkgw.Providers.Registry.{
  ProviderRegistry, TokenRow, Db, Clock, native_provider, parse_prefixed_model,
  set_provider_enabled,
}
use rkgw.Providers.Registry.Resolve.{collect}
use rkgw.Providers.Registry.Balancing.{
  user_candidate, gather_candidates, own_candidates, alternative_candidates, user_candidates,
  copilot_candidates, pool_candidates, prioritized, Routing, resolve_provider_with_balancing,
}
use rkgw.Providers.Registry.Enabled.{IsValid, IsSound, here, next, enables, Reach-IsValid}
use rkgw.Providers.Registry.Balanced.{
  balanced_route-IsPreferred, resolve_provider_with_balancing-IsSound,
}

abbrev empty_registry : ProviderRegistry
empty_registry = record { cache = []; proxy_credentials = []; disabled_providers = copilot ∷ [] }

empty_registry-IsValid : IsValid empty_registry
unfolding lookup contains
empty_registry-IsValid = record {
  cached = λ user_id entry e. absurd (cc);
  proxied = λ p c e. absurd (cc);
  kiro_enabled = refl;
}

abbrev token_row : String → TokenRow
token_row label = record {
  access_token = "token";
  refresh_token = "refresh";
  expires_at = 1_000;
  base_url = none;
  account_label = label;
}

-- One user with two Anthropic accounts and no other token.
abbrev two_accounts : Db
two_accounts = record {
  get_user_provider_token =
      λ user_id name. if name == "anthropic" then some (token_row "work") else none;
  get_all_user_provider_tokens = λ user_id name.
      if name == "anthropic" then some (token_row "work" ∷ token_row "home" ∷ []) else none;
  get_copilot_tokens = λ user_id. none;
  get_user_provider_priority = λ user_id. none;
  get_admin_pool_accounts = λ name. none;
}

abbrev clock : Clock
clock = record { utc = 500; instant = 10 }

abbrev routing : Routing
routing = record { registry = empty_registry; tracker = record { states = []; round_robin = 0 } }

Reach-IsValid_example : IsValid (set_provider_enabled empty_registry anthropic false)
Reach-IsValid_example = Reach-IsValid empty_registry-IsValid (next here (enables anthropic false))

resolve_provider_with_balancing-IsSound_example :
    let route =
      (resolve_provider_with_balancing routing
        (some 7)
        "claude-opus-4"
        (some two_accounts)
        clock).0 in
    IsSound (copilot ∷ []) (route.0, route.1)
resolve_provider_with_balancing-IsSound_example =
    resolve_provider_with_balancing-IsSound routing (some 7) "claude-opus-4" (some two_accounts)
      clock empty_registry-IsValid

explicit_known : native_provider "anthropic/claude-opus-4" ≡ some (anthropic, true)
unfolding native_provider parse_prefixed_model split_once from_str
explicit_known = refl

first_candidate :
    get_elem? (gather_candidates (copilot ∷ []) 7 anthropic true two_accounts 500) 0
    ≡ some (user_candidate 7 anthropic (pos 0) (token_row "work"))
unfolding gather_candidates own_candidates alternative_candidates user_candidates copilot_candidates
    pool_candidates collect contains as_str lookup
first_candidate = refl

balanced_route-IsPreferred_example :
    (a : AccountId) × ((resolve_provider_with_balancing routing
        (some 7)
        "anthropic/claude-opus-4"
        (some two_accounts)
        clock).0.2
      ≡ some a)
    × IsPreferred routing.tracker 10
        (prioritized (gather_candidates (copilot ∷ []) 7 anthropic true two_accounts 500))
        a
unfolding is_limited lookup
balanced_route-IsPreferred_example =
    balanced_route-IsPreferred routing 7 "anthropic/claude-opus-4" two_accounts clock anthropic true
      explicit_known 0 (user_candidate 7 anthropic (pos 0) (token_row "work")) first_candidate refl

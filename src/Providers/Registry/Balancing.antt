-- ===== src/Providers/Registry/Balancing.antt =====
-- backend/src/providers/registry.rs: `resolve_provider_with_balancing`.
use rkgw.Base.{
  ℕ, String, Bool, true, false, ◌&&◌, ◌||◌, not, List, [], ◌∷◌, ◌++◌, Option, none, some, ltb, ◌==◌,
  if◌then◌else◌, unwrap_or, is_empty, string_eq,
}
use rkgw.Base.Int.{ℤ, pos, ltb_ℤ}
use rkgw.Base.Maps.{lookup}
use rkgw.Base.Sets.{contains}
use rkgw.Providers.Id.{ProviderId, kiro, copilot, provider_eq, as_str}
use rkgw.Providers.RateLimit.{AccountId, account_eq, RateLimitTracker}
use rkgw.Providers.RateLimit.Select.{best_account_with_priority}
use rkgw.Providers.Registry.{
  ProviderCredentials, ProviderRegistry, TokenRow, PoolRow, Db, Clock, native_provider,
}
use rkgw.Providers.Registry.Resolve.{collect, copilot_creds, resolve_provider}

pub record Candidate : Type 0 where
  pub account : AccountId
  pub creds : ProviderCredentials
  pub priority : ℤ

abbrev pub admin_pool_priority : ℤ
admin_pool_priority = pos 100

unfoldable pub user_candidate : ℕ → ProviderId → ℤ → TokenRow → Candidate
user_candidate user_id native native_pri row = record {
  account = record {
    user_id = some user_id;
    provider_id = native;
    account_label = row.account_label;
  };
  creds = record {
    provider = native;
    access_token = row.access_token;
    base_url = row.base_url;
    account_label = row.account_label;
  };
  priority = native_pri;
}

-- The user's accounts that have not expired.
unfoldable pub user_candidates : ℕ → ProviderId → ℤ → ℕ → List TokenRow → List Candidate
unfolding user_candidate
user_candidates user_id native native_pri now [] = []
user_candidates user_id native native_pri now (row ∷ rows) =
    let rest = user_candidates user_id native native_pri now rows in
    if ltb now row.expires_at then user_candidate user_id native native_pri row ∷ rest else rest

unfoldable pub copilot_candidates : ℕ → ℤ → Db → ℕ → List Candidate
copilot_candidates user_id pri db now = elim (copilot_creds (db.get_copilot_tokens user_id) now) [
  | none ↦ []
  | some (creds, expires_at) ↦
      (record {
        account = record {
          user_id = some user_id;
          provider_id = copilot;
          account_label = "default";
        };
        creds = creds;
        priority = pri;
      }
        ∷ [])
]

unfoldable pub pool_candidates : ProviderId → List PoolRow → List Candidate
pool_candidates native [] = []
pool_candidates native (row ∷ rows) = candidate ∷ pool_candidates native rows
  where
    candidate : Candidate
    candidate = record {
      account = record { user_id = none; provider_id = native; account_label = row.account_label };
      creds = record {
        provider = native;
        access_token = row.api_key;
        base_url = row.base_url;
        account_label = row.account_label;
      };
      priority = admin_pool_priority;
    }

-- The three stretches of code that push candidates.
unfoldable pub own_candidates : ℕ → ProviderId → ℤ → Db → ℕ → List Candidate
own_candidates user_id native native_pri db now =
    if native == copilot
    then copilot_candidates user_id native_pri db now
    else user_candidates user_id native native_pri now
        (unwrap_or (db.get_all_user_provider_tokens user_id (as_str native)) [])

unfoldable pub alternative_candidates :
    ℕ → ProviderId → Bool → ℤ → ℤ → List Candidate → Db → ℕ → List Candidate
alternative_candidates user_id native explicit native_pri copilot_pri own db now =
    if not (native == copilot)
      && not explicit
      && (is_empty own || not (ltb_ℤ native_pri copilot_pri))
    then copilot_candidates user_id copilot_pri db now
    else []

unfoldable pub gather_candidates : List ProviderId → ℕ → ProviderId → Bool → Db → ℕ → List Candidate
unfolding own_candidates alternative_candidates
gather_candidates disabled user_id native explicit db now =
    let priority = collect [] (unwrap_or (db.get_user_provider_priority user_id) []) in
    let native_pri = unwrap_or (lookup (as_str native) priority) (pos 0) in
    let copilot_pri = unwrap_or (lookup "copilot" priority) (pos 1) in
    let own =
      if contains disabled native then [] else own_candidates user_id native native_pri db now in
    let other =
      if contains disabled copilot
      then []
      else alternative_candidates user_id native explicit native_pri copilot_pri own db now in
    let pool =
      if contains disabled native
      then []
      else pool_candidates native (unwrap_or (db.get_admin_pool_accounts (as_str native)) []) in
    own ++ (other ++ pool)

-- `candidates.iter().find(|(aid, _, _)| aid == &best)`
unfoldable pub find_candidate : AccountId → List Candidate → Option Candidate
find_candidate a [] = none
find_candidate a (c ∷ candidates) = if c.account == a then some c else find_candidate a candidates

abbrev pub BalancedRoute : Type 0
BalancedRoute = ProviderId × Option ProviderCredentials × Option AccountId

abbrev pub routed_to : Candidate → AccountId → BalancedRoute
routed_to c a = (c.creds.provider, some c.creds, some a)

-- The accounts and priorities that the tracker chooses among.
abbrev pub prioritized : List Candidate → List (AccountId × ℤ)
prioritized [] = []
prioritized (c ∷ candidates) = (c.account, c.priority) ∷ prioritized candidates

-- The choice among candidates of which `first` is the first.
unfoldable pub choose_candidate :
    RateLimitTracker → ℕ → Candidate → List Candidate → BalancedRoute × RateLimitTracker
choose_candidate tracker instant first candidates =
    let (best, tracker') = best_account_with_priority tracker instant (prioritized candidates) in
    elim best [
      | none ↦ (routed_to first first.account, tracker')
      | some a ↦ elim (find_candidate a candidates) [
        | none ↦ (routed_to first first.account, tracker')
        | some c ↦ (routed_to c a, tracker')
      ]
    ]

-- The state that a resolution may change: the registry's cache and the tracker's counter.
pub record Routing : Type 0 where
  pub registry : ProviderRegistry
  pub tracker : RateLimitTracker

unfoldable pub no_candidate :
    Routing → ℕ → String → ProviderId → Bool → Db → Clock → BalancedRoute × Routing
no_candidate s user_id model native true db clock = ((native, none, none), s)
no_candidate s user_id model native false db clock =
    let (registry, (pid, creds)) =
      resolve_provider s.registry (some user_id) model (some db) clock in
    ((pid, creds, none), record s { registry = registry })

unfoldable pub balance :
    Routing → ℕ → String → ProviderId → Bool → Db → Clock → List Candidate → BalancedRoute × Routing
unfolding no_candidate
balance s user_id model native explicit db clock [] =
    no_candidate s user_id model native explicit db clock
balance s user_id model native explicit db clock (first ∷ others) =
    let (route, tracker) = choose_candidate s.tracker clock.instant first (first ∷ others) in
    (route, record s { tracker = tracker })

-- What follows the look at the model's name; the checks for a database stand in its way.
unfoldable pub balance_for :
    Routing → ℕ → String → Option (ProviderId × Bool) → Option Db → Clock → BalancedRoute × Routing
unfolding balance
balance_for s user_id model none db clock = ((kiro, none, none), s)
balance_for s user_id model (some (native, explicit)) none clock = ((kiro, none, none), s)
balance_for s user_id model (some (native, explicit)) (some db) clock =
    balance s user_id model native explicit db clock
      (gather_candidates s.registry.disabled_providers user_id native explicit db clock.utc)

unfoldable pub resolve_provider_with_balancing :
    Routing → Option ℕ → String → Option Db → Clock → BalancedRoute × Routing
unfolding balance_for
resolve_provider_with_balancing s none model db clock = ((kiro, none, none), s)
resolve_provider_with_balancing s (some user_id) model db clock =
    balance_for s user_id model (native_provider model) db clock

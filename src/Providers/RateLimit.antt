-- ===== src/Providers/RateLimit.antt =====
-- backend/src/providers/rate_limiter.rs. An `Instant` and a `Duration` are counts of nanoseconds;
-- the current time is an argument of each operation that reads the clock.
pub mod Select
pub mod Optimal
pub mod Tiers
pub mod Cooldown
pub mod Rotation
mod Examples
use rkgw.Base.{
  ℕ, zero, suc, ◌+◌, ◌-◌, ◌*◌, ◌/◌, ◌%◌, ◌^◌, min, max, String, Bool, true, false, ◌&&◌, not, ◌≡◌,
  ◌↔◌, List, [], ◌∷◌, map, Option, none, some, arith, ltb, leb, eqb, Eq, ◌==◌, if◌then◌else◌,
  is_some, unwrap_or, ◌>>=◌, length, get_elem?, is_empty, string_eq, nat_eq, option_eq,
  option_beq_iff,
}
use text.Mathlib.TextEquality.{eq_iff}
use rkgw.Base.Maps.{Map, lookup, insert, retain}
use rkgw.Base.Words.{u64_max, saturating_mul, saturating_add, parse_u64}
use rkgw.Providers.Id.{
  ProviderId, anthropic, open_ai_codex, copilot, kiro, huawei_maas, provider_eq, provider_beq_iff,
}

-- A user's id is the number of its UUID; `none` is an account of the admin pool.
pub record AccountId : Type 0 where
  pub user_id : Option ℕ
  pub provider_id : ProviderId
  pub account_label : String

abbrev pub account_beq : AccountId → AccountId → Bool
account_beq a b =
    (a.user_id == b.user_id)
    && (a.provider_id == b.provider_id)
    && (a.account_label == b.account_label)

pub account_beq_iff : (a b : AccountId) → (account_beq a b ≡ true) ↔ (a ≡ b)
account_beq_iff a b = ground (
  arith,
  option_beq_iff a.user_id b.user_id,
  provider_beq_iff a.provider_id b.provider_id,
  eq_iff a.account_label b.account_label,
)

instance abbrev pub account_eq : Eq AccountId
account_eq = record { beq = account_beq; beq_iff = account_beq_iff }

pub record RateLimitState : Type 0 where
  pub requests_remaining : Option ℕ
  pub tokens_remaining : Option ℕ
  pub reset_at : Option ℕ
  pub limited_until : Option ℕ
  pub updated_at : ℕ

pub record RateLimitTracker : Type 0 where
  pub states : Map AccountId RateLimitState
  pub round_robin : ℕ

abbrev pub default_score : ℕ
default_score = u64_max / 2

abbrev pub default_retry_after : ℕ
default_retry_after = 60 * 1_000_000_000

-- An `Instant` holds its seconds in an i64.
abbrev pub instant_end : ℕ
instant_end = 2 ^ 63 * 1_000_000_000

unfoldable pub new : RateLimitTracker
new = record { states = []; round_robin = 0 }

unfoldable pub compute_score : Option ℕ → Option ℕ → ℕ
compute_score requests_remaining tokens_remaining =
    let req_score = saturating_mul (unwrap_or requests_remaining 0) 100 in
    let tok_score = unwrap_or tokens_remaining 0 / 1000 in saturating_add req_score tok_score

-- The readable value of each header of a response: `headers.get(name)` and `to_str`.
abbrev pub Headers : Type 0
Headers = String → Option String

unfoldable pub parse_header : Headers → String → Option ℕ
parse_header headers name = headers name >>= parse_u64

-- The figures that a provider's headers carry; `none` where the code returns early.
unfoldable pub header_figures : ProviderId → Headers → Option (Option ℕ × Option ℕ)
header_figures anthropic headers = some (
  parse_header headers "anthropic-ratelimit-requests-remaining",
  parse_header headers "anthropic-ratelimit-tokens-remaining",
)
header_figures open_ai_codex headers = some (
  parse_header headers "x-ratelimit-remaining-requests",
  parse_header headers "x-ratelimit-remaining-tokens",
)
header_figures copilot headers = some (parse_header headers "x-ratelimit-remaining", none)
header_figures _ headers =
    let req = parse_header headers "x-ratelimit-remaining-requests" in
    let tok = parse_header headers "x-ratelimit-remaining-tokens" in
    if not (is_some req) && not (is_some tok) then none else some (req, tok)

store_figures : RateLimitTracker → AccountId → ℕ → Option (Option ℕ × Option ℕ) → RateLimitTracker
store_figures t account_id now none = t
store_figures t account_id now (some (requests_remaining, tokens_remaining)) =
    if not (is_some requests_remaining) && not (is_some tokens_remaining)
    then t
    else record t { states = insert account_id state t.states }
  where
    state : RateLimitState
    state = record {
      requests_remaining = requests_remaining;
      tokens_remaining = tokens_remaining;
      reset_at = none;
      limited_until = none;
      updated_at = now;
    }

unfoldable pub update_from_headers :
    RateLimitTracker → AccountId → ProviderId → Headers → ℕ → RateLimitTracker
unfolding store_figures
update_from_headers t account_id provider_id headers now =
    store_figures t account_id now (header_figures provider_id headers)

-- `entry(..).and_modify(..).or_insert(..)`
limit_entry : Option RateLimitState → ℕ → ℕ → RateLimitState
limit_entry none now until = record {
  requests_remaining = some 0;
  tokens_remaining = none;
  reset_at = none;
  limited_until = some until;
  updated_at = now;
}
limit_entry (some state) now until = record state {
  limited_until = some until;
  requests_remaining = some 0;
  updated_at = now;
}

-- `none` is the panic of `now + cooldown` past the last `Instant`.
unfoldable pub mark_limited : RateLimitTracker → AccountId → Option ℕ → ℕ → Option RateLimitTracker
unfolding limit_entry
mark_limited t account_id retry_after now =
    let until = now + unwrap_or retry_after default_retry_after in
    let state = limit_entry (lookup account_id t.states) now until in
    if ltb until instant_end
    then some (record t { states = insert account_id state t.states })
    else none

-- Entries updated after the cutoff `now - max_age` stay. The seconds of an `Instant` are signed, so the
-- cutoff may lie before 0; `none` is the panic where it lies before the first instant.
unfoldable pub cleanup_stale : RateLimitTracker → ℕ → ℕ → Option RateLimitTracker
cleanup_stale t max_age now =
    if ltb (now + instant_end) max_age
    then none
    else some
        (record t { states = retain (λ state. ltb now (state.updated_at + max_age)) t.states })

pub record RateLimitStateSnapshot : Type 0 where
  pub requests_remaining : Option ℕ
  pub tokens_remaining : Option ℕ
  pub limited_until : Option ℕ

unfoldable pub get_all_states : RateLimitTracker → List (AccountId × RateLimitStateSnapshot)
get_all_states t = map snapshot t.states
  where
    snapshot : AccountId × RateLimitState → AccountId × RateLimitStateSnapshot
    snapshot (id, state) = (
      id,
      record {
        requests_remaining = state.requests_remaining;
        tokens_remaining = state.tokens_remaining;
        limited_until = state.limited_until;
      },
    )

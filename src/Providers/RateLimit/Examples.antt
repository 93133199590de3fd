-- ===== src/Providers/RateLimit/Examples.antt =====
-- Runs of the rate limiter, and its theorems at concrete trackers.
use rkgw.Base.{
  ℕ, ◌<◌, false, [], ◌∷◌, Option, none, some, arith, ◌≡◌, ◌≢◌, ◌⊎◌, refl, length, ◌==◌,
  if◌then◌else◌, string_eq,
}
use rkgw.Base.Int.{pos}
use rkgw.Base.Maps.{lookup, insert}
use rkgw.Base.Words.{saturating_mul, saturating_add}
use rkgw.Providers.Id.{anthropic}
use rkgw.Providers.RateLimit.{
  AccountId, account_eq, RateLimitState, RateLimitTracker, compute_score, mark_limited,
  update_from_headers, header_figures, Headers, limit_entry,
}
use rkgw.Providers.RateLimit.Select.{
  score_candidate, score_all, max_score, tied_at, pick, best_account, push_tier, group_tiers,
  try_tiers, best_account_with_priority,
}
use rkgw.Providers.RateLimit.Optimal.{is_limited, headroom}
use rkgw.Providers.RateLimit.Tiers.{IsPreferred, best_account_with_priority-IsPreferred}
use rkgw.Providers.RateLimit.Cooldown.{best_account-mark_limited, update_from_headers_cases}
use rkgw.Providers.RateLimit.Rotation.{after_choices, best_account_rotates}

abbrev work : AccountId
work = record { user_id = some 7; provider_id = anthropic; account_label = "work" }

abbrev home : AccountId
home = record { user_id = some 7; provider_id = anthropic; account_label = "home" }

abbrev pool : AccountId
pool = record { user_id = none; provider_id = anthropic; account_label = "pool" }

abbrev state_with : Option ℕ → Option ℕ → RateLimitState
state_with requests until = record {
  requests_remaining = requests;
  tokens_remaining = some 5000;
  reset_at = none;
  limited_until = until;
  updated_at = 0;
}

abbrev tracker : RateLimitTracker
tracker = record {
  states = (work, state_with (some 10) none) ∷ (home, state_with (some 30) (some 50)) ∷ [];
  round_robin = 4;
}

best_account_with_priority-IsPreferred_example :
    IsPreferred tracker 20 ((home, pos 0) ∷ (work, pos 1) ∷ (pool, pos 100) ∷ []) work
unfolding best_account_with_priority try_tiers group_tiers push_tier best_account score_all
    score_candidate compute_score max_score tied_at pick lookup saturating_mul saturating_add
best_account_with_priority-IsPreferred_example =
    best_account_with_priority-IsPreferred tracker 20
      ((home, pos 0) ∷ (work, pos 1) ∷ (pool, pos 100) ∷ []) work refl

abbrev marked : RateLimitTracker
marked = record {
  states =
      (work, record (state_with (some 0) (some 130)) { updated_at = 100 })
      ∷ (home, state_with (some 30) (some 50))
      ∷ [];
  round_robin = 4;
}

mark_limited_run : mark_limited tracker work (some 30) 100 ≡ some marked
unfolding mark_limited limit_entry insert lookup
mark_limited_run = refl

best_account-mark_limited_example : (best_account marked 129 (work ∷ home ∷ [])).0 ≢ some work
unfolding mark_limited limit_entry insert lookup
best_account-mark_limited_example =
    best_account-mark_limited tracker work (some 30) 100 refl 129 (work ∷ home ∷ []) (omega arith)

abbrev headers : Headers
headers name = if name == "anthropic-ratelimit-requests-remaining" then some "12" else none

update_from_headers_cases_example :
    let t' = update_from_headers tracker home anthropic headers 30 in
    ((t' ≡ tracker)
      × ((header_figures anthropic headers ≡ none)
          ⊎ (header_figures anthropic headers ≡ some (none, none))))
    ⊎ ((requests : Option ℕ) × (tokens : Option ℕ) × (header_figures anthropic headers
          ≡ some (requests, tokens))
        × ((requests ≢ none) ⊎ (tokens ≢ none))
        × ((later : ℕ) → is_limited t'.states later home ≡ false)
        × (headroom t'.states home ≡ compute_score requests tokens)
        × ((b : AccountId) → b ≢ home → lookup b t'.states ≡ lookup b tracker.states))
update_from_headers_cases_example = update_from_headers_cases tracker home 30 anthropic headers

-- Two free accounts with the same figures take turns.
abbrev even : RateLimitTracker
even = record {
  states = (work, state_with (some 10) none) ∷ (home, state_with (some 10) none) ∷ [];
  round_robin = 0;
}

best_account_rotates_example :
    (k : ℕ) × (k < length (work ∷ home ∷ []))
    × ((best_account (after_choices k 20 (work ∷ home ∷ []) even) 20 (work ∷ home ∷ [])).0
        ≡ some home)
unfolding is_limited headroom lookup compute_score
best_account_rotates_example =
    best_account_rotates even 20 (work ∷ home ∷ []) 1 home refl refl
      ((λ free. omega arith), ((λ free. omega arith), tt)) (omega arith)

-- ===== src/Providers/RateLimit/Select.antt =====
-- backend/src/providers/rate_limiter.rs: choosing an account, `best_account` and
-- `best_account_with_priority`.
use rkgw.Base.{
  ℕ, suc, ◌+◌, ◌%◌, max, List, [], ◌∷◌, ◌++◌, Option, none, some, ltb, ◌==◌, nat_eq, if◌then◌else◌,
  ◌>>=◌, length, get_elem?, is_empty,
}
use rkgw.Base.Maps.{Map, lookup}
use rkgw.Base.Words.{u64_mod}
use rkgw.Base.Int.{ℤ, ltb_ℤ, int_eq}
use rkgw.Providers.RateLimit.{
  AccountId, account_eq, RateLimitState, RateLimitTracker, default_score, compute_score,
}

-- The body of the scoring loop: `none` is `continue`.
unfoldable pub score_candidate : Map AccountId RateLimitState → ℕ → AccountId → Option ℕ
score_candidate states now candidate = elim (lookup candidate states) [
  | none ↦ some default_score
  | some state ↦
      (let score = compute_score state.requests_remaining state.tokens_remaining in
        elim state.limited_until [
          | none ↦ some score
          | some limited_until ↦ if ltb now limited_until then none else some score
        ])
]

abbrev push_score : ℕ → Option ℕ → List (ℕ × ℕ) → List (ℕ × ℕ)
push_score idx none scored = scored
push_score idx (some score) scored = (idx, score) ∷ scored

unfoldable pub score_all : Map AccountId RateLimitState → ℕ → ℕ → List AccountId → List (ℕ × ℕ)
score_all states now idx [] = []
score_all states now idx (c ∷ candidates) =
    push_score idx (score_candidate states now c) (score_all states now (suc idx) candidates)

unfoldable pub max_score : List (ℕ × ℕ) → ℕ
max_score [] = 0
max_score ((idx, s) ∷ scored) = max s (max_score scored)

unfoldable pub tied_at : ℕ → List (ℕ × ℕ) → List ℕ
tied_at m [] = []
tied_at m ((idx, s) ∷ scored) = let rest = tied_at m scored in if s == m then idx ∷ rest else rest

-- `none` would be the panic of an index out of range.
unfoldable pub pick : List AccountId → List ℕ → ℕ → Option AccountId
pick candidates tied rr = get_elem? tied (rr % length tied) >>= get_elem? candidates

unfoldable pub best_account :
    RateLimitTracker → ℕ → List AccountId → Option AccountId × RateLimitTracker
best_account t now candidates =
    let scored = score_all t.states now 0 candidates in
    if is_empty scored then (none, t) else (
      pick candidates (tied_at (max_score scored) scored) t.round_robin,
      record t { round_robin = (t.round_robin + 1) % u64_mod },
    )

-- The `BTreeMap` of the tiers, in the order of its keys.
abbrev pub Tiers : Type 0
Tiers = List (ℤ × List AccountId)

unfoldable pub push_tier : ℤ → AccountId → Tiers → Tiers
push_tier pri aid [] = (pri, aid ∷ []) ∷ []
push_tier pri aid ((q, accounts) ∷ tiers) =
    if pri == q
    then (q, accounts ++ (aid ∷ [])) ∷ tiers
    else if ltb_ℤ pri q
    then (pri, aid ∷ []) ∷ (q, accounts) ∷ tiers
    else (q, accounts) ∷ push_tier pri aid tiers

unfoldable pub group_tiers : Tiers → List (AccountId × ℤ) → Tiers
group_tiers tiers [] = tiers
group_tiers tiers ((aid, pri) ∷ candidates) = group_tiers (push_tier pri aid tiers) candidates

unfoldable pub try_tiers : RateLimitTracker → ℕ → Tiers → Option AccountId × RateLimitTracker
try_tiers t now [] = (none, t)
try_tiers t now ((pri, accounts) ∷ tiers) =
    let (best, t') = best_account t now accounts in
    elim best [ none ↦ try_tiers t' now tiers | some a ↦ (some a, t') ]

unfoldable pub best_account_with_priority :
    RateLimitTracker → ℕ → List (AccountId × ℤ) → Option AccountId × RateLimitTracker
best_account_with_priority t now candidates = try_tiers t now (group_tiers [] candidates)

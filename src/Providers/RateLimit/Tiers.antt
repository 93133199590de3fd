-- ===== src/Providers/RateLimit/Tiers.antt =====
-- `best_account_with_priority`: the order of the tiers, and what the choice through them promises.
use rkgw.Base.{
  ℕ, ◌≤◌, true, false, List, [], ◌∷◌, ◌++◌, Option, none, some, arith, ◌≡◌, ◌↔◌, ◌⊎◌, inl, inr,
  refl, ap, subst, get_elem?, All, All-imp, All-intro, All-indexed, All-append, All-append_left,
  All-append_right, All-get_elem?,
}
use rkgw.Base.Int.{ℤ, ◌<ℤ◌, ◌≤ℤ◌, int_eq}
use rkgw.Base.Maps.{Map}
use rkgw.Providers.RateLimit.{AccountId, RateLimitState, RateLimitTracker}
use rkgw.Providers.RateLimit.Select.{
  Tiers, best_account, push_tier, group_tiers, try_tiers, best_account_with_priority,
}
use rkgw.Providers.RateLimit.Optimal.{is_limited, headroom, best_account_cases}

-- The keys of the tree map rise.
abbrev IsSorted : Tiers → Type 0
IsSorted [] = Unit {0}
IsSorted (tier ∷ tiers) = All (λ e. tier.0 <ℤ e.0) tiers × IsSorted tiers

-- Where an account goes: into the tier at the head, before it, or behind it.
module _ (pri q : ℤ) (aid : AccountId) (accounts : List AccountId) (tiers : Tiers) where
  push_tier_cases :
      ((pri ≡ q)
        × (push_tier pri aid ((q, accounts) ∷ tiers) ≡ (q, accounts ++ (aid ∷ [])) ∷ tiers))
      ⊎ (((pri <ℤ q)
            × (push_tier pri aid ((q, accounts) ∷ tiers) ≡ (pri, aid ∷ []) ∷ (q, accounts) ∷ tiers))
          ⊎ ((q <ℤ pri)
              × (push_tier pri aid ((q, accounts) ∷ tiers)
                  ≡ (q, accounts) ∷ push_tier pri aid tiers)))
  unfolding push_tier
  push_tier_cases = ground arith

push_tier-above :
    (p pri : ℤ) (aid : AccountId) (tiers : Tiers)
    → p <ℤ pri
    → All (λ e. p <ℤ e.0) tiers
    → All (λ e. p <ℤ e.0) (push_tier pri aid tiers)
unfolding push_tier
push_tier-above p pri aid [] h all = (h, tt)
push_tier-above p pri aid ((q, accounts) ∷ tiers) h all =
    ground (arith, push_tier-above p pri aid tiers)

push_tier-IsSorted :
    (pri : ℤ) (aid : AccountId) (tiers : Tiers)
    → IsSorted tiers
    → IsSorted (push_tier pri aid tiers)
unfolding push_tier
push_tier-IsSorted pri aid [] s = (tt, tt)
push_tier-IsSorted pri aid ((q, accounts) ∷ tiers) (above, s) =
    elim (push_tier_cases pri q aid accounts tiers) [
      | inl (same, e) ↦ rw e (above, s)
      | inr (inl (before, e)) ↦
          rw e ((before, All-imp tiers (λ t h. omega arith) above), (above, s))
      | inr (inr (behind, e)) ↦
          rw e (push_tier-above q pri aid tiers behind above, push_tier-IsSorted pri aid tiers s)
    ]

module _ {ℓ} (P : AccountId → ℤ → Type ℓ) where
  abbrev AllTiers : Tiers → Type ℓ
  AllTiers tiers = All (λ e. All (λ b. P b e.0) e.1) tiers

  push_tier-AllTiers :
      (pri : ℤ) (aid : AccountId) (tiers : Tiers)
      → AllTiers (push_tier pri aid tiers) ↔ (P aid pri × AllTiers tiers)
  unfolding push_tier
  push_tier-AllTiers pri aid [] = (λ h. (h.0.0, tt), λ h. ((h.0, tt), tt))
  push_tier-AllTiers pri aid ((q, accounts) ∷ tiers) =
      elim (push_tier_cases pri q aid accounts tiers) [
        | inl (same, e) ↦
            rw (e, same)
              (
                (λ h. (
                  (All-append_right (λ b. P b q) accounts _ h.0).0,
                  (All-append_left (λ b. P b q) accounts _ h.0, h.1),
                )),
                (λ h. (All-append (λ b. P b q) accounts _ h.1.0 (h.0, tt), h.1.1)),
              )
        | inr (inl (before, e)) ↦ rw e ((λ h. (h.0.0, h.1)), (λ h. ((h.0, tt), h.1)))
        | inr (inr (behind, e)) ↦
            let (to, from) = push_tier-AllTiers pri aid tiers in
            rw e ((λ h. ((to h.1).0, (h.0, (to h.1).1))), (λ h. (h.1.0, from (h.0, h.1.1))))
      ]

  group_tiers-AllTiers :
      (tiers : Tiers) (candidates : List (AccountId × ℤ))
      → AllTiers (group_tiers tiers candidates) ↔ (AllTiers tiers × All (λ c. P c.0 c.1) candidates)
  unfolding group_tiers
  group_tiers-AllTiers tiers [] = ((λ h. (h, tt)), (λ h. h.0))
  group_tiers-AllTiers tiers ((aid, pri) ∷ candidates) =
      let (to, from) = group_tiers-AllTiers (push_tier pri aid tiers) candidates in
      let (out, into) = push_tier-AllTiers pri aid tiers in
      (
        (λ h. ((out (to h).0).1, ((out (to h).0).0, (to h).1))),
        (λ h. from (into (h.1.0, h.0), h.1.1)),
      )

group_tiers-IsSorted :
    (tiers : Tiers) (candidates : List (AccountId × ℤ))
    → IsSorted tiers
    → IsSorted (group_tiers tiers candidates)
unfolding group_tiers
group_tiers-IsSorted tiers [] s = s
group_tiers-IsSorted tiers ((aid, pri) ∷ candidates) s =
    group_tiers-IsSorted (push_tier pri aid tiers) candidates (push_tier-IsSorted pri aid tiers s)

-- No free account stands in a better tier than `p`, nor in that tier with more headroom than `a`.
abbrev pub Outranks : Map AccountId RateLimitState → ℕ → AccountId → ℤ → AccountId → ℤ → Type 0
Outranks states now a p b q =
    is_limited states now b ≡ false → (p ≤ℤ q) × (q ≡ p → headroom states b ≤ headroom states a)

module _ {ℓ} (P : AccountId → ℤ → Type ℓ) (t : RateLimitTracker) (now : ℕ) where
  -- What the tiers behind give for the choice through all of them.
  Choice : Tiers → Type ℓ
  Choice tiers =
      (AllTiers (λ b q. is_limited t.states now b ≡ true) tiers
        × (try_tiers t now tiers ≡ (none, t)))
      ⊎ ((a : AccountId) × (p : ℤ) × ((try_tiers t now tiers).0 ≡ some a)
          × P a p
          × (is_limited t.states now a ≡ false)
          × AllTiers (Outranks t.states now a p) tiers)

  skip_cold :
      (p : ℤ) (accounts : List AccountId) (tiers : Tiers)
      → All (λ b. is_limited t.states now b ≡ true) accounts
      → best_account t now accounts ≡ (none, t)
      → Choice tiers
      → Choice ((p, accounts) ∷ tiers)
  unfolding Choice try_tiers
  skip_cold p accounts tiers cold none_here (inl (all, e)) =
      inl ((cold, all), rw (none_here, try_tiers) (rw none_here e))
  skip_cold p accounts tiers cold none_here (inr (a, q, e, pa, free, best)) = inr (
    a,
    q,
    rw (none_here, try_tiers) (rw none_here e),
    pa,
    free,
    (All-imp accounts (λ b c f. absurd (cc)) cold, best),
  )

  -- The first tier with a free account decides.
  take_best :
      (p : ℤ) (accounts : List AccountId) (tiers : Tiers) (a : AccountId) {t' : RateLimitTracker}
      → best_account t now accounts ≡ (some a, t')
      → P a p
      → is_limited t.states now a ≡ false
      → AllTiers (Outranks t.states now a p) ((p, accounts) ∷ tiers)
      → Choice ((p, accounts) ∷ tiers)
  unfolding Choice try_tiers
  take_best p accounts tiers a e pa free best = inr (a, p, rw (e, try_tiers) refl, pa, free, best)

  behind :
      (a : AccountId) (p : ℤ) (tiers : Tiers)
      → All (λ e. p <ℤ e.0) tiers
      → AllTiers (Outranks t.states now a p) tiers
  behind a p tiers above =
      All-imp tiers
        (λ e h. All-intro _ e.1 (λ b free. (omega arith, λ same. absurd (ground arith)))) above

  try_tiers_cases : (tiers : Tiers) → IsSorted tiers → AllTiers P tiers → Choice tiers
  unfolding try_tiers Choice
  try_tiers_cases [] s h = inl (tt, refl)
  try_tiers_cases ((p, accounts) ∷ tiers) (above, s) (here, h) =
      elim (best_account_cases t now accounts) [
        | inl (cold, e) ↦ skip_cold p accounts tiers cold e (try_tiers_cases tiers s h)
        | inr (a, e, best) ↦
            take_best p accounts tiers a e (All-get_elem? (λ b. P b p) accounts _ a here best.0.1)
              best.1
              (
                All-imp accounts (λ b fits free. (omega arith, λ same. fits free)) best.2,
                behind a p tiers above,
              )
      ]

module _ (t : RateLimitTracker) (now : ℕ) (candidates : List (AccountId × ℤ)) where
  abbrev IsCandidate : AccountId → ℤ → Type 0
  IsCandidate a p = (k : ℕ) × (get_elem? candidates k ≡ some (a, p))

  -- The account is a free candidate at some priority, which nobody free outranks.
  abbrev pub IsPreferred : AccountId → Type 0
  IsPreferred a =
      (p : ℤ) × IsCandidate a p
      × (is_limited t.states now a ≡ false)
      × All (λ c. Outranks t.states now a p c.0 c.1) candidates

  pub priority_cases :
      (All (λ c. is_limited t.states now c.0 ≡ true) candidates
        × ((best_account_with_priority t now candidates).0 ≡ none))
      ⊎ ((a : AccountId) × ((best_account_with_priority t now candidates).0 ≡ some a)
          × IsPreferred a)
  unfolding best_account_with_priority Choice
  priority_cases =
      let tiers = group_tiers [] candidates in
      let start = (group_tiers-AllTiers IsCandidate [] candidates).1 (tt, All-indexed candidates) in
      elim (try_tiers_cases IsCandidate t now tiers (group_tiers-IsSorted [] candidates tt) start) [
        | inl (cold, e) ↦ inl (
          ((group_tiers-AllTiers (λ b q. is_limited t.states now b ≡ true) [] candidates).0 cold).1,
          ap (λ (r : Option AccountId × RateLimitTracker). r.0) e,
        )
        | inr (a, p, e, there, free, best) ↦ inr (
          a,
          e,
          (
            p,
            there,
            free,
            ((group_tiers-AllTiers (Outranks t.states now a p) [] candidates).0 best).1,
          ),
        )
      ]

  -- It finds no account exactly when every candidate, of whatever priority, is cooling down.
  pub best_account_with_priority-eq-none :
      ((best_account_with_priority t now candidates).0 ≡ none)
      ↔ All (λ c. is_limited t.states now c.0 ≡ true) candidates
  best_account_with_priority-eq-none = elim priority_cases [
    | inl (all, e) ↦ ((λ _. all), (λ _. e))
    | inr (a, e, (p, (k, there), free, best)) ↦ (
      (λ h. absurd (cc)),
      (λ all.
          cc (
            All-get_elem? (λ c. is_limited t.states now c.0 ≡ true) candidates k (a, p) all there)),
    )
  ]

  -- An account that `best_account_with_priority` returns is a candidate that is not cooling down;
  -- every candidate that is not cooling down has a priority number at least as high, and at the
  -- same number at most its headroom.
  pub best_account_with_priority-IsPreferred :
      (a : AccountId) → (best_account_with_priority t now candidates).0 ≡ some a → IsPreferred a
  best_account_with_priority-IsPreferred a h = elim priority_cases [
    | inl (_, e) ↦ absurd (cc)
    | inr (b, e, best) ↦ subst IsPreferred (cc) best
  ]

-- ===== src/Providers/RateLimit/Optimal.antt =====
-- What `best_account` promises: the account with the most headroom among those not cooling down.
use rkgw.Base.{
  ℕ, suc, ◌+◌, ◌%◌, ◌≤◌, ◌<◌, Bool, true, false, List, [], ◌∷◌, Option, none, some, ltb, eqb_iff,
  arith, ◌==◌, nat_eq, Bool-cases, subst, ◌≡◌, ◌≢◌, ◌↔◌, ◌⊎◌, inl, inr, refl, length, get_elem?,
  get_elem?_total, is_empty-cases, ap, All, All-imp, All-get_elem?,
}
use rkgw.Base.Maps.{Map, lookup}
use rkgw.Base.Words.{u64_mod}
use rkgw.Providers.RateLimit.{
  AccountId, account_eq, RateLimitState, RateLimitTracker, default_score, compute_score,
}
use rkgw.Providers.RateLimit.Select.{
  score_candidate, score_all, max_score, tied_at, pick, best_account,
}

-- An account cools down while its `limited_until` lies ahead.
unfoldable pub is_limited : Map AccountId RateLimitState → ℕ → AccountId → Bool
is_limited states now a = elim (lookup a states) [
  | none ↦ false
  | some state ↦ elim state.limited_until [ none ↦ false | some until ↦ ltb now until ]
]

unfoldable pub headroom : Map AccountId RateLimitState → AccountId → ℕ
headroom states a = elim (lookup a states) [
  | none ↦ default_score
  | some state ↦ compute_score state.requests_remaining state.tokens_remaining
]

module _ (states : Map AccountId RateLimitState) (now : ℕ) where
  -- An entry of the scored list, against the candidates from position `i` on.
  unfoldable pub Scores : ℕ → List AccountId → ℕ × ℕ → Type 0
  Scores i candidates (idx, score) =
      (k : ℕ) × (a : AccountId) × (idx ≡ i + k)
      × (get_elem? candidates k ≡ some a)
      × (is_limited states now a ≡ false)
      × (score ≡ headroom states a)

  pub score_candidate_cases :
      (a : AccountId)
      → ((is_limited states now a ≡ true) × (score_candidate states now a ≡ none))
        ⊎ ((is_limited states now a ≡ false)
            × (score_candidate states now a ≡ some (headroom states a)))
  unfolding is_limited score_candidate headroom
  score_candidate_cases a = ground arith

  Scores-cons :
      (i : ℕ) (c : AccountId) (candidates : List AccountId) (e : ℕ × ℕ)
      → Scores (suc i) candidates e
      → Scores i (c ∷ candidates) e
  unfolding Scores
  Scores-cons i c candidates e (k, a, at, found, free, score) =
      (suc k, a, omega arith, found, free, score)

  pub score_all-Scores :
      (i : ℕ) (candidates : List AccountId)
      → All (Scores i candidates) (score_all states now i candidates)
  unfolding score_all Scores
  score_all-Scores i [] = tt
  score_all-Scores i (c ∷ candidates) =
      let rest = All-imp _ (Scores-cons i c candidates) (score_all-Scores (suc i) candidates) in
      elim (score_candidate_cases c) [
        | inl (_, e) ↦ rw e rest
        | inr (free, e) ↦ rw e ((0, c, omega arith, refl, free, refl), rest)
      ]

  score_all-eq-nil :
      (i : ℕ) (candidates : List AccountId)
      → (score_all states now i candidates ≡ [])
        ↔ All (λ a. is_limited states now a ≡ true) candidates
  unfolding score_all
  score_all-eq-nil i [] = (λ _. tt, λ _. refl)
  score_all-eq-nil i (c ∷ candidates) = elim (score_candidate_cases c) [
    | inl (cold, e) ↦
        rw e (
          let (to, from) = score_all-eq-nil (suc i) candidates in
          (λ h. (cold, to h), λ h. from h.1))
    | inr (free, e) ↦ rw e (λ h. cc, λ h. cc (h.0))
  ]

  -- A bound on the scores bounds the headroom of each candidate that is free.
  pub headroom-le :
      (i m : ℕ) (candidates : List AccountId)
      → max_score (score_all states now i candidates) ≤ m
      → All (λ a. is_limited states now a ≡ false → headroom states a ≤ m) candidates
  unfolding score_all max_score
  headroom-le i m [] h = tt
  headroom-le i m (c ∷ candidates) h = elim (score_candidate_cases c) [
    | inl (cold, e) ↦ ((λ free. cc), headroom-le (suc i) m candidates (rw e at h))
    | inr (free, e) ↦
        let h' = rw e at h in ((λ _. omega arith), headroom-le (suc i) m candidates (omega arith))
  ]

tied_at-All {ℓ} :
    (P : ℕ × ℕ → Type ℓ) (m : ℕ) (scored : List (ℕ × ℕ))
    → All P scored
    → All (λ idx. P (idx, m)) (tied_at m scored)
unfolding tied_at
tied_at-All P m [] h = tt
tied_at-All P m ((idx, s) ∷ scored) (p, h) = elim (Bool-cases (s == m)) [
  | inl e ↦ rw e (subst (λ t. P (idx, t)) ((eqb_iff s m).0 e) p, tied_at-All P m scored h)
  | inr e ↦ rw e (tied_at-All P m scored h)
]

-- The best score is some candidate's, so somebody is tied at it.
pub tied_at-pos :
    (m : ℕ) (e : ℕ × ℕ) (scored : List (ℕ × ℕ))
    → max_score (e ∷ scored) ≡ m
    → 0 < length (tied_at m (e ∷ scored))
unfolding tied_at max_score
tied_at-pos m (idx, s) [] h = ground arith
tied_at-pos m (idx, s) (f ∷ scored) h = ground (arith, tied_at-pos m f scored)

-- What the result of a choice must be: a candidate, free, with the most headroom of the free ones.
abbrev pub IsBest : Map AccountId RateLimitState → ℕ → List AccountId → AccountId → Type 0
IsBest states now candidates a =
    ((k : ℕ) × (get_elem? candidates k ≡ some a))
    × (is_limited states now a ≡ false)
    × All (λ b. is_limited states now b ≡ false → headroom states b ≤ headroom states a) candidates

pub some_tied :
    (scored : List (ℕ × ℕ)) → scored ≢ [] → 0 < length (tied_at (max_score scored) scored)
some_tied [] h = absurd (h refl)
some_tied (e ∷ scored) h = tied_at-pos _ e scored refl

module _ (states : Map AccountId RateLimitState) (now rr : ℕ) (candidates : List AccountId) where
  picked :
      (m : ℕ)
      → max_score (score_all states now 0 candidates) ≡ m
      → let tied = tied_at m (score_all states now 0 candidates) in
        0 < length tied
        → (a : AccountId) × (pick candidates tied rr ≡ some a) × IsBest states now candidates a
  unfolding pick Scores
  picked m top pos =
      let scored = score_all states now 0 candidates in
      let tied = tied_at m scored in
      let (idx, at) = get_elem?_total tied (rr % length tied) (omega arith) in
      let good =
        tied_at-All (Scores states now 0 candidates) m scored
          (score_all-Scores states now 0 candidates) in
      let (k, a, here, found, free, best) =
        All-get_elem? (λ i. Scores states now 0 candidates (i, m)) tied _ idx good at in
      (
        a,
        rw at (subst (λ i. get_elem? candidates i ≡ some a) (omega arith) found),
        ((k, found), free, headroom-le states now 0 _ candidates (omega arith)),
      )

  pick_total :
      score_all states now 0 candidates ≢ []
      → let scored = score_all states now 0 candidates in
        (a : AccountId) × (pick candidates (tied_at (max_score scored) scored) rr ≡ some a)
        × IsBest states now candidates a
  pick_total h = picked _ refl (some_tied _ h)

free_not_limited :
    (states : Map AccountId RateLimitState) (now : ℕ) {a : AccountId} (candidates : List AccountId)
    (k : ℕ)
    → get_elem? candidates k ≡ some a
    → All (λ b. is_limited states now b ≡ true) candidates
    → is_limited states now a ≡ false
    → ⊥
free_not_limited states now {a} candidates k found all free =
    cc (All-get_elem? (λ b. is_limited states now b ≡ true) candidates k a all found)

module _ (t : RateLimitTracker) (now : ℕ) (candidates : List AccountId) where
  pub best_account_cases :
      (All (λ a. is_limited t.states now a ≡ true) candidates
        × (best_account t now candidates ≡ (none, t)))
      ⊎ ((a : AccountId) × (best_account t now candidates
            ≡ (some a, record t { round_robin = (t.round_robin + 1) % u64_mod }))
          × IsBest t.states now candidates a)
  unfolding best_account
  best_account_cases = elim (is_empty-cases (score_all t.states now 0 candidates)) [
    | inl (e, empty) ↦ inl ((score_all-eq-nil t.states now 0 candidates).0 e, rw empty)
    | inr (e, full) ↦
        let (a, chosen, best) = pick_total t.states now t.round_robin candidates e in
        inr (a, rw (full, chosen), best)
  ]

  -- `best_account` finds no account exactly when every candidate is cooling down.
  pub best_account-eq-none :
      ((best_account t now candidates).0 ≡ none)
      ↔ All (λ a. is_limited t.states now a ≡ true) candidates
  best_account-eq-none = elim best_account_cases [
    | inl (all, e) ↦ ((λ _. all), (λ _. ap (λ (r : Option AccountId × RateLimitTracker). r.0) e))
    | inr (a, e, best) ↦ (
      (λ h. absurd (cc)),
      (λ all. absurd (free_not_limited t.states now candidates best.0.0 best.0.1 all best.1)),
    )
  ]

  -- An account that it returns is a candidate, is not cooling down, and has at least the headroom
  -- of every other candidate that is not cooling down.
  pub best_account-IsBest :
      (a : AccountId)
      → (best_account t now candidates).0 ≡ some a
      → IsBest t.states now candidates a
  best_account-IsBest a h = elim best_account_cases [
    | inl (_, e) ↦ cc
    | inr (b, e, best) ↦ subst (IsBest t.states now candidates) (cc) best
  ]

-- ===== src/Providers/RateLimit/Rotation.antt =====
-- The round-robin tiebreak of `best_account`.
use native.Mathlib.Nat.{le_refl, mod-lt, mod-eq_of_lt, mod-add-mod, add-mod_right}
use mathlib.Core.Path.{ap₂}
use rkgw.Base.{
  ℕ, zero, suc, ◌+◌, ◌-◌, ◌%◌, ◌≤◌, ◌<◌, false, List, [], ◌∷◌, some, arith, ◌≡◌, inl, inr, ap, sym,
  subst, ◌∙◌, ◌==◌, nat_eq, leb, Bool-cases, length, get_elem?, All, All-imp, All-get_elem?,
  get_elem?-lt-length, is_empty, is_empty-cases,
}
use rkgw.Base.Maps.{Map}
use rkgw.Base.Words.{u64_mod}
use rkgw.Providers.RateLimit.{AccountId, RateLimitState, RateLimitTracker}
use rkgw.Providers.RateLimit.Select.{score_all, max_score, tied_at, pick, best_account}
use rkgw.Providers.RateLimit.Optimal.{
  is_limited, headroom, Scores, score_candidate_cases, score_all-Scores, headroom-le,
}

-- From any counter, each residue below `n` comes up within `n` steps.
residue_reached : (r n j : ℕ) → j < n → (k : ℕ) × (k < n) × ((r + k) % n ≡ j)
residue_reached r n j h =
    let low = mod-lt r {m = n} (omega arith) in
    elim (Bool-cases (leb (r % n) j)) [
      | inl le ↦
          let k = j - r % n in
          let here : r % n + k ≡ j = ground arith in
          (k, ground arith, sym (mod-add-mod r n k) ∙ ap (λ x. x % n) here ∙ mod-eq_of_lt h)
      | inr gt ↦
          let k = j + n - r % n in
          let here : r % n + k ≡ j + n = omega arith in
          (
            k,
            ground arith,
            sym (mod-add-mod r n k) ∙ ap (λ x. x % n) here ∙ add-mod_right j n ∙ mod-eq_of_lt h,
          )
    ]

-- The tracker after `k` more choices among the same candidates.
unfoldable pub after_choices : ℕ → ℕ → List AccountId → RateLimitTracker → RateLimitTracker
after_choices zero now candidates t = t
after_choices (suc k) now candidates t =
    after_choices k now candidates (best_account t now candidates).1

module _ (states : Map AccountId RateLimitState) (now : ℕ) where
  score_all-index :
      (i k : ℕ) (a : AccountId) (candidates : List AccountId)
      → get_elem? candidates k ≡ some a
      → is_limited states now a ≡ false
      → (j : ℕ) × (get_elem? (score_all states now i candidates) j
          ≡ some (i + k, headroom states a))
  unfolding score_all
  score_all-index i k a [] e free = cc
  score_all-index i zero a (c ∷ candidates) e free = elim (score_candidate_cases states now c) [
    | inl (cold, _) ↦ absurd (cc)
    | inr (_, scored) ↦ rw scored (0, ground arith)
  ]
  score_all-index i (suc k) a (c ∷ candidates) e free =
      let (j, at) = score_all-index (suc i) k a candidates e free in
      let at' =
        subst
          (λ n. get_elem? (score_all states now (suc i) candidates) j ≡ some (n, headroom states a))
          (omega arith) at in
      elim (score_candidate_cases states now c) [
        | inl (_, skipped) ↦ rw skipped (j, at')
        | inr (_, scored) ↦ rw scored (suc j, at')
      ]

  length-score_all-le :
      (i : ℕ) (candidates : List AccountId)
      → length (score_all states now i candidates) ≤ length candidates
  unfolding score_all
  length-score_all-le i [] = omega arith
  length-score_all-le i (c ∷ candidates) = ground (arith, length-score_all-le (suc i) candidates)

tied_at-index :
    (m idx j : ℕ) (scored : List (ℕ × ℕ))
    → get_elem? scored j ≡ some (idx, m)
    → (k : ℕ) × (get_elem? (tied_at m scored) k ≡ some idx)
unfolding tied_at
tied_at-index m idx j [] e = cc
tied_at-index m idx zero ((i, s) ∷ scored) e = elim (Bool-cases (s == m)) [
  | inl same ↦ rw same (0, ground arith)
  | inr other ↦ absurd (ground arith)
]
tied_at-index m idx (suc j) ((i, s) ∷ scored) e =
    let (k, at) = tied_at-index m idx j scored e in
    elim (Bool-cases (s == m)) [ inl same ↦ rw same (suc k, at) | inr other ↦ rw other (k, at) ]

length-tied_at-le : (m : ℕ) (scored : List (ℕ × ℕ)) → length (tied_at m scored) ≤ length scored
unfolding tied_at
length-tied_at-le m [] = omega arith
length-tied_at-le m ((i, s) ∷ scored) = ground (arith, length-tied_at-le m scored)

max_score-le : (m : ℕ) (scored : List (ℕ × ℕ)) → All (λ e. e.1 ≤ m) scored → max_score scored ≤ m
unfolding max_score
max_score-le m [] h = omega arith
max_score-le m ((i, s) ∷ scored) h = omega (arith, max_score-le m scored h.1)

module _ (now : ℕ) (candidates : List AccountId) where
  best_account_steps :
      (t : RateLimitTracker)
      → is_empty (score_all t.states now 0 candidates) ≡ false
      → t.round_robin + 1 < u64_mod
      → (best_account t now candidates).1 ≡ record t { round_robin = t.round_robin + 1 }
  unfolding best_account
  best_account_steps t full h = rw full (ap (λ n. record t { round_robin = n }) (mod-eq_of_lt h))

  after_choices_lem :
      (k : ℕ) (t : RateLimitTracker)
      → is_empty (score_all t.states now 0 candidates) ≡ false
      → t.round_robin + k < u64_mod
      → after_choices k now candidates t ≡ record t { round_robin = t.round_robin + k }
  unfolding after_choices
  after_choices_lem zero t full h = ap (λ n. record t { round_robin = n }) (omega arith)
  after_choices_lem (suc k) t full h = rw (best_account_steps t full (omega arith)) (
      after_choices_lem k (record t { round_robin = t.round_robin + 1 }) full (omega arith)
      ∙ ap (λ n. record t { round_robin = n }) (omega arith))

module _ (t : RateLimitTracker) (now : ℕ) (candidates : List AccountId) where
  abbrev top_score : ℕ
  top_score = max_score (score_all t.states now 0 candidates)

  abbrev tied_top : List ℕ
  tied_top = tied_at top_score (score_all t.states now 0 candidates)

  -- An account that nobody outscores stands among the tied.
  tied_top-index :
      (i : ℕ) (a : AccountId)
      → get_elem? candidates i ≡ some a
      → is_limited t.states now a ≡ false
      → All
          (λ b. is_limited t.states now b ≡ false → headroom t.states b ≤ headroom t.states a)
          candidates
      → (j : ℕ) × (get_elem? tied_top j ≡ some i)
  unfolding Scores
  tied_top-index i a here free best =
      let states = t.states in
      let scored = score_all states now 0 candidates in
      let low = max_score-le (headroom states a) scored (
        All-imp scored
          (λ e (k, b, _, found, free_b, is_score).
            rw is_score (All-get_elem? _ candidates k b best found free_b))
          (score_all-Scores states now 0 candidates)) in
      let high =
        All-get_elem? _ candidates i a (headroom-le states now 0 top_score candidates (le_refl _))
          here free in
      let (j, at) = score_all-index states now 0 i a candidates here free in
      tied_at-index top_score i j scored (at ∙ ap₂ (λ x y. some (x, y)) (omega arith) (omega arith))

  -- Ties are broken in turn: from any tracker whose counter does not wrap meanwhile, as many
  -- choices as there are candidates give every free account that no free candidate outscores.
  pub best_account_rotates :
      (i : ℕ) (a : AccountId)
      → get_elem? candidates i ≡ some a
      → is_limited t.states now a ≡ false
      → All
          (λ b. is_limited t.states now b ≡ false → headroom t.states b ≤ headroom t.states a)
          candidates
      → t.round_robin + length candidates ≤ u64_mod
      → (k : ℕ) × (k < length candidates)
        × ((best_account (after_choices k now candidates t) now candidates).0 ≡ some a)
  unfolding best_account pick
  best_account_rotates i a here free best room =
      let (j, at) = tied_top-index i a here free best in
      let scored = score_all t.states now 0 candidates in
      let fits = length-tied_at-le top_score scored in
      let fits' = length-score_all-le t.states now 0 candidates in
      let inside = get_elem?-lt-length tied_top j at in
      let (k, lt, turn) = residue_reached t.round_robin (length tied_top) j inside in
      elim (is_empty-cases scored) [
        | inl (e, _) ↦ absurd (omega (arith, ap length e))
        | inr (_, full) ↦ (
          k,
          omega arith,
          rw (after_choices_lem now candidates k t full (omega arith)) (rw (full, turn, at) here),
        )
      ]

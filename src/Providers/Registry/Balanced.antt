-- ===== src/Providers/Registry/Balanced.antt =====
-- `resolve_provider_with_balancing`: an explicit prefix binds, disabled providers stay out, and
-- the account is one that is not cooling down where there is one.
use rkgw.Base.{
  ℕ, zero, suc, String, Bool, true, false, List, [], ◌∷◌, Option, none, some, arith, ◌≡◌, ◌⊎◌, inl,
  inr, refl, ap, subst, sym, ◌∙◌, ltb, ◌==◌, if◌then◌else◌, not, is_empty, unwrap_or, Bool-cases,
  Option-cases, All, All-append, All-unless, string_eq, nat_eq, get_elem?, ◌&&◌, ◌||◌,
}
use rkgw.Base.Int.{ℤ, pos, ltb_ℤ}
use rkgw.Base.Maps.{lookup}
use rkgw.Base.Sets.{contains}
use rkgw.Providers.Id.{ProviderId, copilot, provider_eq, provider_beq_iff, as_str}
use rkgw.Providers.RateLimit.{AccountId, account_eq, account_beq_iff, RateLimitTracker}
use rkgw.Providers.RateLimit.Optimal.{is_limited}
use rkgw.Providers.RateLimit.Tiers.{IsPreferred, priority_cases}
use rkgw.Providers.Registry.{ProviderCredentials, TokenRow, PoolRow, Db, Clock, native_provider}
use rkgw.Providers.Registry.Resolve.{collect, copilot_creds}
use rkgw.Providers.Registry.Valid.{copilot_creds_lem}
use rkgw.Providers.Registry.Enabled.{IsValid, IsSound, resolve_provider-IsSound}
use rkgw.Providers.Registry.Balancing.{
  Candidate, user_candidates, copilot_candidates, pool_candidates, own_candidates,
  alternative_candidates, gather_candidates, find_candidate, prioritized, BalancedRoute, routed_to,
  choose_candidate, Routing, no_candidate, balance, balance_for, resolve_provider_with_balancing,
}

-- What every candidate satisfies: account and credentials name one provider, which is enabled, and
-- which is the model's own, or Copilot where no prefix binds.
abbrev pub IsFit : List ProviderId → ProviderId → Bool → Candidate → Type 0
IsFit disabled native explicit c =
    (c.account.provider_id ≡ c.creds.provider)
    × (contains disabled c.creds.provider ≡ false)
    × ((c.creds.provider ≡ native) ⊎ ((c.creds.provider ≡ copilot) × (explicit ≡ false)))

module _ (disabled : List ProviderId) (native : ProviderId) (explicit : Bool) where
  user_candidates-IsFit :
      (user_id : ℕ) (pri : ℤ) (now : ℕ) (rows : List TokenRow)
      → contains disabled native ≡ false
      → All (IsFit disabled native explicit) (user_candidates user_id native pri now rows)
  unfolding user_candidates
  user_candidates-IsFit user_id pri now [] on = tt
  user_candidates-IsFit user_id pri now (row ∷ rows) on =
      let rest = user_candidates-IsFit user_id pri now rows on in
      elim (Bool-cases (ltb now row.expires_at)) [
        | inl live ↦ rw live ((refl, on, inl refl), rest)
        | inr old ↦ rw old rest
      ]

  pool_candidates-IsFit :
      (rows : List PoolRow)
      → contains disabled native ≡ false
      → All (IsFit disabled native explicit) (pool_candidates native rows)
  unfolding pool_candidates
  pool_candidates-IsFit [] on = tt
  pool_candidates-IsFit (row ∷ rows) on = ((refl, on, inl refl), pool_candidates-IsFit rows on)

  copilot_candidates-IsFit :
      (user_id : ℕ) (pri : ℤ) (db : Db) (now : ℕ)
      → contains disabled copilot ≡ false
      → ((copilot ≡ native) ⊎ (explicit ≡ false))
      → All (IsFit disabled native explicit) (copilot_candidates user_id pri db now)
  unfolding copilot_candidates
  copilot_candidates-IsFit user_id pri db now on may =
      elim (Option-cases (copilot_creds (db.get_copilot_tokens user_id) now)) [
        | inl e ↦ rw (e, copilot_candidates) tt
        | inr ((creds, expires_at), e) ↦
            let is_copilot = copilot_creds_lem (db.get_copilot_tokens user_id) now e in
            rw (e, copilot_candidates)
              (
                (
                  sym is_copilot,
                  subst (λ p. contains disabled p ≡ false) (sym is_copilot) on,
                  elim may [
                    | inl same ↦ inl (is_copilot ∙ same)
                    | inr free ↦ inr (is_copilot, free)
                  ],
                ),
                tt,
              )
      ]

  own_candidates-IsFit :
      (user_id : ℕ) (pri : ℤ) (db : Db) (now : ℕ)
      → contains disabled native ≡ false
      → All (IsFit disabled native explicit) (own_candidates user_id native pri db now)
  unfolding own_candidates
  own_candidates-IsFit user_id pri db now on = elim (Bool-cases (native == copilot)) [
    | inl same ↦
        let is_copilot = (provider_beq_iff native copilot).0 same in
        rw same (
          copilot_candidates-IsFit user_id pri db now
            (subst (λ p. contains disabled p ≡ false) is_copilot on) (inl (sym is_copilot)))
    | inr other ↦ rw other (user_candidates-IsFit user_id pri now _ on)
  ]

  alternative_candidates-IsFit :
      (user_id : ℕ) (native_pri copilot_pri : ℤ) (own : List Candidate) (db : Db) (now : ℕ)
      → contains disabled copilot ≡ false
      → All
          (IsFit disabled native explicit)
          (alternative_candidates user_id native explicit native_pri copilot_pri own db now)
  unfolding alternative_candidates
  alternative_candidates-IsFit user_id native_pri copilot_pri own db now on =
      elim (Bool-cases (
        not (native == copilot)
        && not explicit
        && (is_empty own || not (ltb_ℤ native_pri copilot_pri)))) [
          | inl may ↦
              rw may (copilot_candidates-IsFit user_id copilot_pri db now on (inr (ground arith)))
          | inr no_need ↦ rw no_need tt
        ]

  gather_candidates-IsFit :
      (user_id : ℕ) (db : Db) (now : ℕ)
      → All
          (IsFit disabled native explicit)
          (gather_candidates disabled user_id native explicit db now)
  unfolding gather_candidates
  gather_candidates-IsFit user_id db now =
      let P = IsFit disabled native explicit in
      let priority = collect [] (unwrap_or (db.get_user_provider_priority user_id) []) in
      let native_pri = unwrap_or (lookup (as_str native) priority) (pos 0) in
      let copilot_pri = unwrap_or (lookup "copilot" priority) (pos 1) in
      let own =
        if contains disabled native then [] else own_candidates user_id native native_pri db now in
      let pool = unwrap_or (db.get_admin_pool_accounts (as_str native)) [] in
      All-append P _ _ (All-unless P _ _ (own_candidates-IsFit user_id native_pri db now)) (
        All-append P _ _
          (All-unless P _ _
            (alternative_candidates-IsFit user_id native_pri copilot_pri own db now))
          (All-unless P _ _ (pool_candidates-IsFit pool)))

find_candidate-All {ℓ} :
    (P : Candidate → Type ℓ) (a : AccountId) (candidates : List Candidate) {c : Candidate}
    → All P candidates
    → find_candidate a candidates ≡ some c
    → P c × (c.account ≡ a)
unfolding find_candidate
find_candidate-All P a [] {c} h e = cc
find_candidate-All P a (d ∷ candidates) {c} h e = elim (Bool-cases (d.account == a)) [
  | inl same ↦
      let found : d ≡ c = cc (rw same at e) in
      (
        subst P found h.0,
        subst (λ (x : Candidate). x.account ≡ a) found ((account_beq_iff d.account a).0 same),
      )
  | inr other ↦ find_candidate-All P a candidates h.1 (rw other at e)
]

-- A candidate's account is found again in the list of candidates.
find_candidate_total :
    (candidates : List Candidate) (k : ℕ) (a : AccountId) (pri : ℤ)
    → get_elem? (prioritized candidates) k ≡ some (a, pri)
    → (c : Candidate) × (find_candidate a candidates ≡ some c)
unfolding find_candidate
find_candidate_total [] k a pri e = cc
find_candidate_total (d ∷ candidates) zero a pri e =
    (d, rw ((account_beq_iff d.account a).1 (cc)) refl)
find_candidate_total (d ∷ candidates) (suc k) a pri e = elim (Bool-cases (d.account == a)) [
  | inl same ↦ (d, rw same refl)
  | inr other ↦ rw other (find_candidate_total candidates k a pri e)
]

-- The choice is one of the candidates, under its own account. The account is preferred by the
-- tracker, or all are cooling down and it is the first.
module _ (tracker : RateLimitTracker) (instant : ℕ) (first : Candidate)
    (others : List Candidate) where
  choose_candidate_cases {ℓ} :
      (P : Candidate → Type ℓ)
      → All P (first ∷ others)
      → (c : Candidate) × P c
        × ((choose_candidate tracker instant first (first ∷ others)).0 ≡ routed_to c c.account)
        × (IsPreferred tracker instant (prioritized (first ∷ others)) c.account
            ⊎ All
                (λ d. is_limited tracker.states instant d.0 ≡ true)
                (prioritized (first ∷ others)))
  unfolding choose_candidate
  choose_candidate_cases P h =
      elim (priority_cases tracker instant (prioritized (first ∷ others))) [
        | inl (cold, e) ↦ (first, h.0, rw (e, choose_candidate) refl, inr cold)
        | inr (a, e, best) ↦
            let (p, (k, there), _, _) = best in
            let (c, found) = find_candidate_total (first ∷ others) k a p there in
            let (fits, same) = find_candidate-All P a (first ∷ others) h found in
            (
              c,
              fits,
              rw (e, choose_candidate) (rw (found, same) refl),
              inl (
                  subst (IsPreferred tracker instant (prioritized (first ∷ others))) (sym same)
                    best),
            )
      ]

get_elem?-empty :
    (cs : List Candidate) (k : ℕ) {c : Candidate} → cs ≡ [] → get_elem? cs k ≡ some c → ⊥
get_elem?-empty [] k e there = cc
get_elem?-empty (d ∷ cs) k e there = cc

get_elem?-head : (d c : Candidate) → get_elem? (d ∷ []) 0 ≡ some c → d ≡ c
get_elem?-head d c e = cc

prioritized-All {ℓ} :
    (P : AccountId → Type ℓ) (candidates : List Candidate) (k : ℕ) (c : Candidate)
    → All (λ d. P d.0) (prioritized candidates)
    → get_elem? candidates k ≡ some c
    → P c.account
prioritized-All P [] k c h e = cc
prioritized-All P (d ∷ candidates) zero c h e =
    subst P (ap (λ (x : Candidate). x.account) (get_elem?-head d c e)) h.0
prioritized-All P (d ∷ candidates) (suc k) c h e = prioritized-All P candidates k c h.1 e

routed_to-IsSound :
    (disabled : List ProviderId) (c : Candidate)
    → contains disabled c.creds.provider ≡ false
    → IsSound disabled (c.creds.provider, some c.creds)
routed_to-IsSound disabled c enabled d found =
    subst
      (λ (x : ProviderCredentials).
        (x.provider ≡ c.creds.provider) × (contains disabled x.provider ≡ false))
      (some-injective found) (refl, enabled)
  where
    some-injective : {x y : ProviderCredentials} → some x ≡ some y → x ≡ y
    some-injective e = cc

module _ (s : Routing) (user_id : ℕ) (model : String) (db : Db) (clock : Clock)
    (native : ProviderId) (explicit : Bool)
    (known : native_provider model ≡ some (native, explicit)) where
  abbrev route : BalancedRoute
  route = (resolve_provider_with_balancing s (some user_id) model (some db) clock).0

  abbrev candidates : List Candidate
  candidates = gather_candidates s.registry.disabled_providers user_id native explicit db clock.utc

  -- The route is a candidate's, or nothing stands for selection.
  abbrev Balanced : List Candidate → BalancedRoute → Type 0
  Balanced cs answer =
      ((cs ≡ []) × (answer ≡ (no_candidate s user_id model native explicit db clock).0))
      ⊎ ((c : Candidate) × IsFit s.registry.disabled_providers native explicit c
          × (answer ≡ routed_to c c.account)
          × (IsPreferred s.tracker clock.instant (prioritized cs) c.account
              ⊎ All (λ d. is_limited s.tracker.states clock.instant d.0 ≡ true) (prioritized cs)))

  balance_cases :
      (cs : List Candidate)
      → All (IsFit s.registry.disabled_providers native explicit) cs
      → Balanced cs (balance s user_id model native explicit db clock cs).0
  unfolding balance
  balance_cases [] h = inl (refl, refl)
  balance_cases (first ∷ others) h =
      inr (choose_candidate_cases s.tracker clock.instant first others _ h)

  route_known : route ≡ (balance s user_id model native explicit db clock candidates).0
  unfolding resolve_provider_with_balancing balance_for
  route_known = ap (λ n. (balance_for s user_id model n (some db) clock).0) known

  route_cases : Balanced candidates route
  route_cases = rw route_known (
      balance_cases candidates (
        gather_candidates-IsFit s.registry.disabled_providers native explicit user_id db clock.utc))

  -- With a user and a database, a provider that the model's name spells as a prefix is the one
  -- that the request is routed to.
  pub explicit_route : explicit ≡ true → route.0 ≡ native
  unfolding no_candidate
  explicit_route e = elim route_cases [
    | inl (_, h) ↦ rw (h, e) refl
    | inr (c, (_, _, fit), h, _) ↦ rw h (elim fit [ inl same ↦ same | inr (_, free) ↦ absurd (cc) ])
  ]

  -- While some candidate is not cooling down, the account that is chosen is one that the tracker
  -- prefers: it is not cooling down, and no candidate that is not outranks it.
  pub balanced_route-IsPreferred :
      (k : ℕ) (c : Candidate)
      → get_elem? candidates k ≡ some c
      → is_limited s.tracker.states clock.instant c.account ≡ false
      → (a : AccountId) × (route.2 ≡ some a)
        × IsPreferred s.tracker clock.instant (prioritized candidates) a
  balanced_route-IsPreferred k c there free = elim route_cases [
    | inl (none_here, _) ↦ absurd (get_elem?-empty candidates k none_here there)
    | inr (d, _, h, inl best) ↦ (d.account, rw h refl, best)
    | inr (d, _, h, inr cold) ↦ absurd (
        let limited =
          prioritized-All (λ b. is_limited s.tracker.states clock.instant b ≡ true) candidates k c
            cold there in
        cc)
  ]

  no_candidate-IsSound :
      IsValid s.registry
      → let answer = (no_candidate s user_id model native explicit db clock).0 in
        IsSound s.registry.disabled_providers (answer.0, answer.1)
  unfolding no_candidate
  no_candidate-IsSound v = elim (Bool-cases explicit) [
    | inl e ↦ rw e (λ c h. absurd (cc))
    | inr e ↦ rw e (resolve_provider-IsSound s.registry v (some user_id) model db clock)
  ]

  balanced_route-IsSound :
      IsValid s.registry → IsSound s.registry.disabled_providers (route.0, route.1)
  balanced_route-IsSound v = elim route_cases [
    | inl (_, h) ↦ rw h (no_candidate-IsSound v)
    | inr (c, (_, enabled, _), h, _) ↦ rw h (routed_to-IsSound _ c enabled)
  ]

-- From a valid registry, whatever a resolution with balancing answers, the credentials in it are the routed provider's, and
-- that provider is not disabled.
pub resolve_provider_with_balancing-IsSound :
    (s : Routing) (user_id : Option ℕ) (model : String) (db : Option Db) (clock : Clock)
    → IsValid s.registry
    → let route = (resolve_provider_with_balancing s user_id model db clock).0 in
      IsSound s.registry.disabled_providers (route.0, route.1)
unfolding resolve_provider_with_balancing balance_for
resolve_provider_with_balancing-IsSound s none model db clock v = λ c e. absurd (cc)
resolve_provider_with_balancing-IsSound s (some user_id) model none clock v =
    elim (Option-cases (native_provider model)) [
      | inl e ↦ rw e (λ c h. absurd (cc))
      | inr (known, e) ↦ rw e (λ c h. absurd (cc))
    ]
resolve_provider_with_balancing-IsSound s (some user_id) model (some db) clock v =
    elim (Option-cases (native_provider model)) [
      | inl e ↦ rw e (λ c h. absurd (cc))
      | inr ((native, explicit), e) ↦
          balanced_route-IsSound s user_id model db clock native explicit e v
    ]

-- ===== src/Guardrails/Aggregate.antt =====
-- What the check of a content answers, from the rules, their sampling and the answers of Bedrock.
use rkgw.Base.{
  ℕ, zero, suc, String, Bool, true, false, ◌&&◌, ◌||◌, List, [], ◌∷◌, ◌++◌, Option, none, some, any,
  ◌==◌, string_eq, get_elem?, ◌≡◌, ◌⊎◌, inl, inr, refl, ap, ◌∙◌, subst, Bool-cases, All,
}
use rkgw.Base.Maps.{Map, lookup, insert, lookup-insert, lookup-insert_self}
use rkgw.Guardrails.{
  intervened, GuardrailValidationResult, GuardrailCheckResult, GuardrailRule, GuardrailProfile,
  GuardrailsConfig, BedrockGuardrailResponse, is_intervened, applies, matching_rules,
  profile_lookup, is_sampled, push_enabled, rule_profiles, overall_action, check_result,
  push_answer, call_profiles, check_rule, check_rules, validate,
}

abbrev pub some_intervened : List GuardrailValidationResult → Bool
some_intervened results = any (λ r. is_intervened r.action) results

or_right : (a : Bool) → (a || true) ≡ true
or_right true = refl
or_right false = refl

some_intervened-append :
    (x y : List GuardrailValidationResult)
    → (some_intervened x ≡ true) ⊎ (some_intervened y ≡ true)
    → some_intervened (x ++ y) ≡ true
some_intervened-append [] y (inl h) = absurd (cc)
some_intervened-append [] y (inr h) = h
some_intervened-append (r ∷ x) y h = elim (Bool-cases (is_intervened r.action)) [
  | inl e ↦ rw e refl
  | inr e ↦ rw e (
      some_intervened-append x y
        (elim h as (λ _. (some_intervened x ≡ true) ⊎ (some_intervened y ≡ true)) [
          | inl a ↦ inl (rw e at a)
          | inr b ↦ inr b
        ]))
]

-- A profile that no other shares its id with is found.
profile_lookup-some :
    (id : String) (p : GuardrailProfile) (profiles : List GuardrailProfile)
    (m : Map String GuardrailProfile)
    → All (λ q. (q.id ≡ id) → q ≡ p) profiles
    → (lookup id m ≡ some p) ⊎ ((k : ℕ) × (get_elem? profiles k ≡ some p) × (p.id ≡ id))
    → lookup id (profile_lookup profiles m) ≡ some p
unfolding profile_lookup
profile_lookup-some id p [] m h (inl e) = e
profile_lookup-some id p [] m h (inr (k, e, same)) = absurd (cc)
profile_lookup-some id p (q ∷ profiles) m (one, h) found =
    profile_lookup-some id p profiles (insert q.id q m) h (step found)
  where
    kept : lookup id m ≡ some p → lookup id (insert q.id q m) ≡ some p
    kept e = elim (Bool-cases (q.id == id)) [
      | inl same ↦
          lookup-insert q.id id q m ∙ rw same (ap some (one ((string_eq.beq_iff q.id id).0 same)))
      | inr other ↦ lookup-insert q.id id q m ∙ rw other e
    ]

    step :
        (lookup id m ≡ some p) ⊎ ((k : ℕ) × (get_elem? (q ∷ profiles) k ≡ some p) × (p.id ≡ id))
        → (lookup id (insert q.id q m) ≡ some p)
          ⊎ ((k : ℕ) × (get_elem? profiles k ≡ some p) × (p.id ≡ id))
    step (inl e) = inl (kept e)
    step (inr (zero, e, same)) =
        let here : q ≡ p = cc in
        let there : lookup q.id (insert q.id q m) ≡ some p =
          lookup-insert_self q.id q m ∙ ap some here in
        let key : q.id ≡ id = ap (λ (x : GuardrailProfile). x.id) here ∙ same in
        inl (subst (λ i. lookup i (insert q.id q m) ≡ some p) key there)
    step (inr (suc k, e, same)) = inr (k, e, same)

module _ (evaluate : String → Option Bool) (roll : String → ℕ)
    (call : String → GuardrailRule → GuardrailProfile → Option BedrockGuardrailResponse) where
  push_answer-intervened :
      (rule : GuardrailRule) (q : GuardrailProfile) (o : Option BedrockGuardrailResponse)
      (results : List GuardrailValidationResult)
      → some_intervened results ≡ true
      → some_intervened (push_answer evaluate roll call rule q o results) ≡ true
  push_answer-intervened rule q none results h = h
  push_answer-intervened rule q (some response) results h =
      rw h (or_right (is_intervened response.action))

  call_profiles-intervened :
      (source : String) (rule : GuardrailRule) (p : GuardrailProfile)
      (response : BedrockGuardrailResponse) (profiles : List GuardrailProfile) (k : ℕ)
      → get_elem? profiles k ≡ some p
      → call source rule p ≡ some response
      → response.action ≡ intervened
      → some_intervened (call_profiles evaluate roll call source rule profiles) ≡ true
  unfolding call_profiles
  call_profiles-intervened source rule p response [] k at answers acts = absurd (cc)
  call_profiles-intervened source rule p response (q ∷ profiles) zero at answers acts =
      let here : q ≡ p = cc in
      let answer : call source rule q ≡ some response = ap (call source rule) here ∙ answers in
      rw answer (rw acts refl)
  call_profiles-intervened source rule p response (q ∷ profiles) (suc k) at answers acts =
      push_answer-intervened rule q (call source rule q)
        (call_profiles evaluate roll call source rule profiles)
        (call_profiles-intervened source rule p response profiles k at answers acts)

  rule_profiles-found :
      (m : Map String GuardrailProfile) (p : GuardrailProfile) (ids : List String) (k : ℕ)
      (id : String)
      → get_elem? ids k ≡ some id
      → lookup id m ≡ some p
      → p.enabled ≡ true
      → (j : ℕ) × (get_elem? (rule_profiles m ids) j ≡ some p)
  unfolding rule_profiles
  rule_profiles-found m p [] k id at found on = absurd (cc)
  rule_profiles-found m p (i ∷ ids) zero id at found on =
      let here : i ≡ id = cc in
      let e : lookup i m ≡ some p = ap (λ x. lookup x m) here ∙ found in (0, rw e (rw on refl))
  rule_profiles-found m p (i ∷ ids) (suc k) id at found on =
      let (j, e) = rule_profiles-found m p ids k id at found on in pushed (lookup i m) j e
    where
      pushed :
          (o : Option GuardrailProfile) (j : ℕ)
          → get_elem? (rule_profiles m ids) j ≡ some p
          → (j' : ℕ) × (get_elem? (push_enabled o (rule_profiles m ids)) j' ≡ some p)
      pushed none j e = (j, e)
      pushed (some q) j e = elim (Bool-cases q.enabled) [
        | inl on ↦ (suc j, rw on e)
        | inr off ↦ (j, rw off e)
      ]

  matching_rules-found :
      (rules : List GuardrailRule) (rule : GuardrailRule) (is_input : Bool) (k : ℕ)
      → get_elem? rules k ≡ some rule
      → rule.enabled ≡ true
      → applies rule.apply_to is_input ≡ true
      → (j : ℕ) × (get_elem? (matching_rules rules is_input) j ≡ some rule)
  unfolding matching_rules
  matching_rules-found [] rule is_input k at on fits = absurd (cc)
  matching_rules-found (r ∷ rules) rule is_input zero at on fits =
      let here : r ≡ rule = cc in
      let chosen : (r.enabled && applies r.apply_to is_input) ≡ true =
        ap (λ (x : GuardrailRule). x.enabled && applies x.apply_to is_input) here
        ∙ rw (on, fits) refl in
      (0, rw chosen (ap some here))
  matching_rules-found (r ∷ rules) rule is_input (suc k) at on fits =
      let (j, e) = matching_rules-found rules rule is_input k at on fits in
      elim (Bool-cases (r.enabled && applies r.apply_to is_input)) [
        | inl chosen ↦ (suc j, rw chosen e)
        | inr passed ↦ (j, rw passed e)
      ]

  check_rules-intervened :
      (source : String) (m : Map String GuardrailProfile) (rules : List GuardrailRule)
      (rule : GuardrailRule) (k : ℕ)
      → get_elem? rules k ≡ some rule
      → some_intervened (check_rule evaluate roll call source m rule) ≡ true
      → some_intervened (check_rules evaluate roll call source m rules) ≡ true
  unfolding check_rules
  check_rules-intervened source m [] rule k at acts = absurd (cc)
  check_rules-intervened source m (r ∷ rules) rule zero at acts =
      let here : rule ≡ r = cc in
      some_intervened-append (check_rule evaluate roll call source m r)
        (check_rules evaluate roll call source m rules)
        (inl (
          subst (λ x. some_intervened (check_rule evaluate roll call source m x) ≡ true) here acts))
  check_rules-intervened source m (r ∷ rules) rule (suc k) at acts =
      some_intervened-append (check_rule evaluate roll call source m r)
        (check_rules evaluate roll call source m rules)
        (inr (check_rules-intervened source m rules rule k at acts))

  check_result-intervened :
      (results : List GuardrailValidationResult)
      → some_intervened results ≡ true
      → (result : GuardrailCheckResult) × (check_result results ≡ some result)
        × (result.action ≡ intervened)
        × (result.passed ≡ false)
  unfolding overall_action
  check_result-intervened [] h = absurd (cc)
  check_result-intervened (r ∷ results) h = (
    record { passed = false; action = intervened; results = r ∷ results },
    rw (h, overall_action) refl,
    refl,
    refl,
  )

  -- Content that a profile stops is stopped: where the guardrails are on, a rule that is on applies to the
  -- direction, its expression holds and it is sampled, and a profile that is on and that the rule
  -- names answers that it intervened, then the check answers that it intervened and did not pass. No two
  -- profiles share an id.
  pub validate-intervened :
      (config : GuardrailsConfig) (source : String) (rule : GuardrailRule) (p : GuardrailProfile)
      (response : BedrockGuardrailResponse) (i j k : ℕ)
      → config.enabled ≡ true
      → get_elem? config.rules i ≡ some rule
      → rule.enabled ≡ true
      → applies rule.apply_to (source == "INPUT") ≡ true
      → evaluate rule.cel_expression ≡ some true
      → is_sampled rule.sampling_rate (roll rule.id) ≡ true
      → get_elem? config.profiles k ≡ some p
      → p.enabled ≡ true
      → All (λ q. (q.id ≡ p.id) → q ≡ p) config.profiles
      → get_elem? rule.profile_ids j ≡ some p.id
      → call source rule p ≡ some response
      → response.action ≡ intervened
      → (result : GuardrailCheckResult) × (validate evaluate roll call config source ≡ some result)
        × (result.action ≡ intervened)
        × (result.passed ≡ false)
  unfolding validate check_rule
  validate-intervened config source rule p response i j k on at rule_on fits holds sampled there
        p_on unique named answers acts =
      let m = profile_lookup config.profiles [] in
      let (a, chosen) =
        matching_rules-found config.rules rule (source == "INPUT") i at rule_on fits in
      let (b, listed) =
        rule_profiles-found m p rule.profile_ids j p.id named
          (profile_lookup-some p.id p config.profiles [] unique (inr (k, there, refl))) p_on in
      let acted : some_intervened (check_rule evaluate roll call source m rule) ≡ true =
        rw (holds, sampled)
          (call_profiles-intervened source rule p response (rule_profiles m rule.profile_ids) b
            listed answers acts) in
      let (result, e, action, passed) =
        check_result-intervened
          (check_rules evaluate roll call source m
            (matching_rules config.rules (source == "INPUT")))
          (check_rules-intervened source m (matching_rules config.rules (source == "INPUT")) rule a
            chosen acted) in
      (result, rw (on, validate) e, action, passed)

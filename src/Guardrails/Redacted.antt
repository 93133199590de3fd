-- ===== src/Guardrails/Redacted.antt =====
-- What becomes of the action `REDACTED`.
use rkgw.Base.{
  ℕ, String, Bool, true, false, List, [], ◌∷◌, ◌++◌, Option, none, some, if◌then◌else◌, any, ◌==◌,
  string_eq, ◌≡◌, ◌≢◌, refl, ap, ◌∙◌, Bool-cases, Option-cases, inl, inr, ◌&&◌,
}
use rkgw.Base.Chars.{chars}
use rkgw.Base.Maps.{Map}
use rkgw.Converters.Messages.{Json}
use rkgw.Guardrails.{
  GuardrailAction, none_taken, intervened, redacted, GuardrailValidationResult,
  GuardrailCheckResult, GuardrailRule, GuardrailProfile, GuardrailsConfig, is_intervened,
  is_redacted, matching_rules, profile_lookup, rule_profiles, is_sampled, overall_action,
  check_result, push_answer, call_profiles, matches, check_rule, check_rules, validate,
}
use rkgw.Guardrails.Bedrock.{parse_response, validate_region, apply_guardrail}

abbrev some_redacted : List GuardrailValidationResult → Bool
some_redacted results = any (λ r. is_redacted r.action) results

some_redacted-append :
    (x y : List GuardrailValidationResult)
    → some_redacted x ≡ false
    → some_redacted y ≡ false
    → some_redacted (x ++ y) ≡ false
some_redacted-append [] y h k = k
some_redacted-append (r ∷ x) y h k = elim (Bool-cases (is_redacted r.action)) [
  | inl e ↦ absurd (cc (rw e at h))
  | inr e ↦ rw e (some_redacted-append x y (rw e at h) k)
]

parse_response-is_redacted : (body : Json) → is_redacted (parse_response body).action ≡ false
unfolding parse_response
parse_response-is_redacted body = either _
  where
    either : (b : Bool) → is_redacted (if b then intervened else none_taken) ≡ false
    either true = refl
    either false = refl

overall_action-ne-redacted :
    (results : List GuardrailValidationResult)
    → some_redacted results ≡ false
    → overall_action results ≢ redacted
unfolding overall_action
overall_action-ne-redacted results h e =
    elim (Bool-cases (any (λ r. is_intervened r.action) results)) [
      | inl acts ↦ differ intervened refl (rw (acts, overall_action) at e)
      | inr calm ↦ differ none_taken refl (rw (calm, h, overall_action) at e)
    ]
  where
    differ : (a : GuardrailAction) → is_redacted a ≡ false → a ≡ redacted → ⊥
    differ a other same = absurd (cc (ap is_redacted same))

module _ (evaluate : String → Option Bool) (roll : String → ℕ)
    (ask : String → GuardrailRule → GuardrailProfile → Option Json) where
  answer-is_redacted :
      (source : String) (rule : GuardrailRule) (p : GuardrailProfile)
      (results : List GuardrailValidationResult)
      → some_redacted results ≡ false
      → some_redacted (
          push_answer evaluate roll
            (apply_guardrail ask)
            rule
            p
            (apply_guardrail ask source rule p)
            results)
        ≡ false
  unfolding apply_guardrail
  answer-is_redacted source rule p results h =
      elim (Bool-cases (validate_region (chars p.region))) [
        | inl fits ↦ elim (Option-cases (ask source rule p)) [
          | inl e ↦ rw (fits, apply_guardrail) (rw e h)
          | inr (body, e) ↦
              rw (fits, apply_guardrail) (rw e (rw (parse_response-is_redacted body) h))
        ]
        | inr bad ↦ rw (bad, apply_guardrail) h
      ]

  call_profiles-some_redacted :
      (source : String) (rule : GuardrailRule) (profiles : List GuardrailProfile)
      → some_redacted (call_profiles evaluate roll (apply_guardrail ask) source rule profiles)
        ≡ false
  unfolding call_profiles
  call_profiles-some_redacted source rule [] = refl
  call_profiles-some_redacted source rule (p ∷ profiles) =
      answer-is_redacted source rule p
        (call_profiles evaluate roll (apply_guardrail ask) source rule profiles)
        (call_profiles-some_redacted source rule profiles)

  check_rule-some_redacted :
      (source : String) (m : Map String GuardrailProfile) (rule : GuardrailRule)
      → some_redacted (check_rule evaluate roll (apply_guardrail ask) source m rule) ≡ false
  unfolding check_rule
  check_rule-some_redacted source m rule =
      elim (Bool-cases (
        matches evaluate roll (apply_guardrail ask) (evaluate rule.cel_expression)
        && is_sampled rule.sampling_rate (roll rule.id))) [
          | inl chosen ↦
              rw (chosen, check_rule)
                (call_profiles-some_redacted source rule (rule_profiles m rule.profile_ids))
          | inr passed ↦ rw (passed, check_rule) refl
        ]

  check_rules-some_redacted :
      (source : String) (m : Map String GuardrailProfile) (rules : List GuardrailRule)
      → some_redacted (check_rules evaluate roll (apply_guardrail ask) source m rules) ≡ false
  unfolding check_rules
  check_rules-some_redacted source m [] = refl
  check_rules-some_redacted source m (rule ∷ rules) =
      some_redacted-append (check_rule evaluate roll (apply_guardrail ask) source m rule)
        (check_rules evaluate roll (apply_guardrail ask) source m rules)
        (check_rule-some_redacted source m rule) (check_rules-some_redacted source m rules)

  checked :
      (results : List GuardrailValidationResult) (result : GuardrailCheckResult)
      → some_redacted results ≡ false
      → check_result results ≡ some result
      → result.action ≢ redacted
  unfolding overall_action
  checked [] result h e = λ same. absurd (cc)
  checked (r ∷ results) result h e =
      λ same. overall_action-ne-redacted (r ∷ results) h (action_is ∙ same)
    where
      action_of_result : Option GuardrailCheckResult → GuardrailAction
      action_of_result none = none_taken
      action_of_result (some x) = x.action

      action_is : overall_action (r ∷ results) ≡ result.action
      action_is = ap action_of_result e

  -- With the answers as the client reads them, a check never answers that content was redacted, whatever
  -- Bedrock says: an answer is read as intervened or as no action.
  pub validate-ne-redacted :
      (config : GuardrailsConfig) (source : String) (result : GuardrailCheckResult)
      → validate evaluate roll (apply_guardrail ask) config source ≡ some result
      → result.action ≢ redacted
  unfolding validate
  validate-ne-redacted config source result e = elim (Bool-cases config.enabled) [
    | inl on ↦
        checked
          (check_rules evaluate roll (apply_guardrail ask) source
            (profile_lookup config.profiles []) (matching_rules config.rules (source == "INPUT")))
          result
          (check_rules-some_redacted source (profile_lookup config.profiles [])
            (matching_rules config.rules (source == "INPUT")))
          (rw (on, validate) at e)
    | inr off ↦ absurd (cc (rw (off, validate) at e))
  ]

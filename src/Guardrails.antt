-- ===== src/Guardrails.antt =====
-- backend/src/guardrails/: types.rs and engine.rs here, with the Bedrock client's answers in Bedrock. A rule's
-- expression is decided by `evaluate`, the CEL evaluator (none for an error); `call` answers for a
-- direction, a rule and a profile what
-- its call to Bedrock answers within the rule's timeout (none for an error or a timeout); `roll` is the random
-- byte that is drawn for a rule. Texts to display, the credentials and the times are left out.
pub mod Bedrock
pub mod Aggregate
pub mod Redacted
pub mod Sampling
mod Examples
use rkgw.Base.{
  ℕ, ◌%◌, String, Bool, true, false, ◌&&◌, not, List, [], ◌∷◌, ◌++◌, Option, none, some, ltb,
  if◌then◌else◌, any, ◌==◌, string_eq, is_empty, ◌>>=◌,
}
use rkgw.Base.Int.{ℤ, pos, ltb_ℤ}
use rkgw.Base.Maps.{Map, lookup, insert}

pub data ApplyTo : Type 0 where
  input output both : ApplyTo

pub data GuardrailAction : Type 0 where
  none_taken intervened redacted : GuardrailAction

pub record GuardrailViolation : Type 0 where
  pub violation_type : String
  pub category : String
  pub severity : String
  pub action : GuardrailAction
  pub message : String

pub record GuardrailValidationResult : Type 0 where
  pub rule_id : String
  pub profile_id : String
  pub action : GuardrailAction
  pub violations : List GuardrailViolation

pub record GuardrailCheckResult : Type 0 where
  pub passed : Bool
  pub action : GuardrailAction
  pub results : List GuardrailValidationResult

pub record GuardrailRule : Type 0 where
  pub id : String
  pub enabled : Bool
  pub cel_expression : String
  pub apply_to : ApplyTo
  pub sampling_rate : ℤ
  pub profile_ids : List String

pub record GuardrailProfile : Type 0 where
  pub id : String
  pub enabled : Bool
  pub region : String
  pub guardrail_id : String
  pub guardrail_version : String

pub record GuardrailsConfig : Type 0 where
  pub enabled : Bool
  pub profiles : List GuardrailProfile
  pub rules : List GuardrailRule

pub record BedrockGuardrailResponse : Type 0 where
  pub action : GuardrailAction
  pub violations : List GuardrailViolation
  pub output_text : Option String

abbrev pub is_intervened : GuardrailAction → Bool
is_intervened intervened = true
is_intervened _ = false

abbrev pub is_redacted : GuardrailAction → Bool
is_redacted redacted = true
is_redacted _ = false

abbrev pub is_none_taken : GuardrailAction → Bool
is_none_taken none_taken = true
is_none_taken _ = false

abbrev pub applies : ApplyTo → Bool → Bool
applies input is_input = is_input
applies output is_input = not is_input
applies both is_input = true

unfoldable pub matching_rules : List GuardrailRule → Bool → List GuardrailRule
matching_rules [] is_input = []
matching_rules (rule ∷ rules) is_input =
    let rest = matching_rules rules is_input in
    if rule.enabled && applies rule.apply_to is_input then rule ∷ rest else rest

-- The lookup table of the profiles: of several with one id, the last one stays.
unfoldable pub profile_lookup :
    List GuardrailProfile → Map String GuardrailProfile → Map String GuardrailProfile
unfolding insert
profile_lookup [] m = m
profile_lookup (p ∷ profiles) m = profile_lookup profiles (insert p.id p m)

-- A roll of 0 to 99 from a random byte.
unfoldable pub is_sampled : ℤ → ℕ → Bool
is_sampled sampling_rate byte =
    if ltb_ℤ sampling_rate (pos 100) then ltb_ℤ (pos (byte % 100)) sampling_rate else true

abbrev pub push_enabled : Option GuardrailProfile → List GuardrailProfile → List GuardrailProfile
push_enabled none profiles = profiles
push_enabled (some p) profiles = if p.enabled then p ∷ profiles else profiles

unfoldable pub rule_profiles : Map String GuardrailProfile → List String → List GuardrailProfile
unfolding lookup
rule_profiles m [] = []
rule_profiles m (id ∷ ids) = push_enabled (lookup id m) (rule_profiles m ids)

unfoldable pub overall_action : List GuardrailValidationResult → GuardrailAction
overall_action results =
    if any (λ r. is_intervened r.action) results
    then intervened
    else if any (λ r. is_redacted r.action) results
    then redacted
    else none_taken

abbrev pub check_result : List GuardrailValidationResult → Option GuardrailCheckResult
unfolding overall_action
check_result [] = none
check_result (r ∷ results) =
    let action = overall_action (r ∷ results) in
    some (record { passed = is_none_taken action; action = action; results = r ∷ results })

module _ (evaluate : String → Option Bool) (roll : String → ℕ)
    (call : String → GuardrailRule → GuardrailProfile → Option BedrockGuardrailResponse) where
  abbrev pub push_answer :
      GuardrailRule
      → GuardrailProfile
      → Option BedrockGuardrailResponse
      → List GuardrailValidationResult
      → List GuardrailValidationResult
  push_answer rule p none results = results
  push_answer rule p (some response) results =
      record {
        rule_id = rule.id;
        profile_id = p.id;
        action = response.action;
        violations = response.violations;
      }
      ∷ results

  -- The answers for the profiles of a rule; the calls run at the same time, and an answer that fails is
  -- passed over.
  unfoldable pub call_profiles :
      String → GuardrailRule → List GuardrailProfile → List GuardrailValidationResult
  call_profiles source rule [] = []
  call_profiles source rule (p ∷ profiles) =
      push_answer rule p (call source rule p) (call_profiles source rule profiles)

  abbrev pub matches : Option Bool → Bool
  matches none = false
  matches (some b) = b

  unfoldable pub check_rule :
      String → Map String GuardrailProfile → GuardrailRule → List GuardrailValidationResult
  unfolding call_profiles rule_profiles is_sampled
  check_rule source profiles rule =
      if matches (evaluate rule.cel_expression) && is_sampled rule.sampling_rate (roll rule.id)
      then call_profiles source rule (rule_profiles profiles rule.profile_ids)
      else []

  unfoldable pub check_rules :
      String → Map String GuardrailProfile → List GuardrailRule → List GuardrailValidationResult
  unfolding check_rule
  check_rules source profiles [] = []
  check_rules source profiles (rule ∷ rules) =
      check_rule source profiles rule ++ check_rules source profiles rules

  unfoldable pub validate : GuardrailsConfig → String → Option GuardrailCheckResult
  unfolding matching_rules check_rules profile_lookup overall_action
  validate config source =
      if config.enabled
      then check_result (
          check_rules source (profile_lookup config.profiles [])
            (matching_rules config.rules (source == "INPUT")))
      else none

  abbrev pub validate_input : GuardrailsConfig → Option GuardrailCheckResult
  unfolding validate
  validate_input config = validate config "INPUT"

  abbrev pub validate_output : GuardrailsConfig → Option GuardrailCheckResult
  unfolding validate
  validate_output config = validate config "OUTPUT"

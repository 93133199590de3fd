-- ===== src/Guardrails/Bedrock.antt =====
-- backend/src/guardrails/bedrock.rs: the check of a region and the reading of an answer of ApplyGuardrail. The
-- signed HTTP request between them is not modelled.
use Prim.Native.String.{◌++◌ as join}
use rkgw.Base.{
  ℕ, ◌+◌, String, Bool, false, ◌&&◌, ◌||◌, not, List, [], ◌∷◌, ◌++◌, Option, none, some, leb, eqb,
  if◌then◌else◌, all, ◌==◌, string_eq, is_empty, unwrap_or, ◌>>=◌,
}
use rkgw.Base.Chars.{Text, chars, text_len, utf8_len}
use rkgw.Converters.Messages.{Json, null, array, Items, end, item}
use rkgw.Converters.Choice.{get, as_text}
use rkgw.Guardrails.{
  GuardrailAction, none_taken, intervened, redacted, GuardrailViolation, GuardrailRule,
  GuardrailProfile, BedrockGuardrailResponse,
}

abbrev is_ascii_lowercase : ℕ → Bool
is_ascii_lowercase c = leb 97 c && leb c 122

abbrev pub is_ascii_digit : ℕ → Bool
is_ascii_digit c = leb 48 c && leb c 57

abbrev pub is_region_char : ℕ → Bool
is_region_char c = is_ascii_lowercase c || is_ascii_digit c || eqb c 45

abbrev pub dashes : Text → ℕ
dashes [] = 0
dashes (c ∷ text) = let rest = dashes text in if eqb c 45 then 1 + rest else rest

abbrev pub ends_with_digit : Text → Bool
ends_with_digit [] = false
ends_with_digit (c ∷ []) = is_ascii_digit c
ends_with_digit (c ∷ d ∷ text) = ends_with_digit (d ∷ text)

-- `validate_region`: whether it accepts. Between n dashes stand n + 1 parts, and the last part ends with the
-- text's last character, which is then no dash.
unfoldable pub validate_region : Text → Bool
unfolding utf8_len
validate_region region =
    leb (text_len region) 25
    && all is_region_char region
    && not (is_empty region)
    && leb 3 (dashes region + 1)
    && ends_with_digit region

-- `value[key]`
abbrev pub at_key : Json → String → Json
unfolding get
at_key value key = unwrap_or (get value key) null

abbrev pub text_or : Json → String → String
text_or value other = unwrap_or (as_text value) other

abbrev pub as_array : Json → Option Items
as_array (array items) = some items
as_array _ = none

abbrev pub violations_of : (Json → GuardrailViolation) → Items → List GuardrailViolation
violations_of f end = []
violations_of f (item v items) = f v ∷ violations_of f items

abbrev pub blocked : String → GuardrailAction
blocked action = if action == "BLOCKED" then intervened else none_taken

unfoldable pub content_violation : Json → GuardrailViolation
unfolding get
content_violation filter = record {
  violation_type = "content_policy";
  category = text_or (at_key filter "type") "unknown";
  severity = text_or (at_key filter "confidence") "NONE";
  action = blocked (text_or (at_key filter "action") "NONE");
  message = join "Content policy violation: " (text_or (at_key filter "type") "unknown");
}

unfoldable pub topic_violation : Json → GuardrailViolation
unfolding get
topic_violation topic = record {
  violation_type = "topic_policy";
  category = text_or (at_key topic "name") "unknown";
  severity = "HIGH";
  action = blocked (text_or (at_key topic "action") "NONE");
  message = join "Topic policy violation: " (text_or (at_key topic "name") "unknown");
}

unfoldable pub word_violation : Json → GuardrailViolation
unfolding get
word_violation word = record {
  violation_type = "word_policy";
  category = "custom_word";
  severity = "HIGH";
  action = intervened;
  message = join "Word policy violation: " (text_or (at_key word "match") "redacted");
}

abbrev pub pii_action : String → GuardrailAction
pii_action action =
    if action == "BLOCKED"
    then intervened
    else if action == "ANONYMIZED"
    then redacted
    else none_taken

unfoldable pub pii_violation : Json → GuardrailViolation
unfolding get
pii_violation entity = record {
  violation_type = "sensitive_info";
  category = text_or (at_key entity "type") "unknown";
  severity = "MEDIUM";
  action = pii_action (text_or (at_key entity "action") "NONE");
  message = join "Sensitive information detected: " (text_or (at_key entity "type") "unknown");
}

-- The violations in one list of one policy, if both are there.
unfoldable pub policy_violations :
    Json → String → String → (Json → GuardrailViolation) → List GuardrailViolation
unfolding get
policy_violations assessment policy key f =
    elim (get assessment policy >>= λ p. as_array (at_key p key)) [
      | none ↦ []
      | some items ↦ violations_of f items
    ]

unfoldable pub assessment_violations : Json → List GuardrailViolation
unfolding policy_violations content_violation topic_violation word_violation pii_violation
assessment_violations assessment =
    policy_violations assessment "contentPolicy" "filters" content_violation
    ++ (policy_violations assessment "topicPolicy" "topics" topic_violation
        ++ (policy_violations assessment "wordPolicy" "customWords" word_violation
            ++ policy_violations assessment "sensitiveInformationPolicy" "piiEntities"
                pii_violation))

abbrev pub all_violations : Items → List GuardrailViolation
unfolding assessment_violations
all_violations end = []
all_violations (item assessment items) = assessment_violations assessment ++ all_violations items

abbrev pub first_item : Items → Option Json
first_item end = none
first_item (item v items) = some v

abbrev pub action_of : String → GuardrailAction
action_of action = if action == "GUARDRAIL_INTERVENED" then intervened else none_taken

unfoldable pub parse_response : Json → BedrockGuardrailResponse
unfolding assessment_violations get
parse_response body = record {
  action = action_of (text_or (at_key body "action") "NONE");
  violations = elim (as_array (at_key body "assessments")) [
    | none ↦ []
    | some items ↦ all_violations items
  ];
  output_text = as_array (at_key body "outputs") >>= first_item >>= λ o. as_text (at_key o "text");
}

-- The call for a profile; `ask` is what the service answers to the signed request, with the status 200.
unfoldable pub apply_guardrail :
    (String → GuardrailRule → GuardrailProfile → Option Json)
    → String
    → GuardrailRule
    → GuardrailProfile
    → Option BedrockGuardrailResponse
unfolding validate_region parse_response
apply_guardrail ask source rule profile =
    if validate_region (chars profile.region)
    then (ask source rule profile >>= λ body. some (parse_response body))
    else none

-- ===== src/Guardrails/Examples.antt =====
-- One rule and one profile, whose answer intervenes.
use rkgw.Base.{
  ℕ, String, Bool, true, false, [], ◌∷◌, Option, none, some, ◌≡◌, ◌≢◌, ◌≤◌, ◌*◌, refl, arith,
  string_eq,
}
use rkgw.Base.Chars.{chars, utf8_len}
use rkgw.Base.Int.{pos}
use rkgw.Converters.Messages.{Json, string, object, field, done}
use rkgw.Guardrails.{
  both, intervened, redacted, GuardrailCheckResult, GuardrailRule, GuardrailProfile,
  GuardrailsConfig, BedrockGuardrailResponse, is_sampled, validate,
}
use rkgw.Guardrails.Aggregate.{validate-intervened}
use rkgw.Guardrails.Bedrock.{validate_region, apply_guardrail}
use rkgw.Guardrails.Redacted.{validate-ne-redacted}
use rkgw.Guardrails.Sampling.{sampled, sampled-min}

abbrev rule : GuardrailRule
rule = record {
  id = "r";
  enabled = true;
  cel_expression = "";
  apply_to = both;
  sampling_rate = pos 50;
  profile_ids = "p" ∷ [];
}

abbrev profile : GuardrailProfile
profile = record {
  id = "p";
  enabled = true;
  region = "us-east-1";
  guardrail_id = "g";
  guardrail_version = "1";
}

abbrev config : GuardrailsConfig
config = record { enabled = true; profiles = profile ∷ []; rules = rule ∷ [] }

abbrev holds : String → Option Bool
holds expression = some true

abbrev rolled : String → ℕ
rolled id = 7

abbrev body : Json
body = object (field "action" (string "GUARDRAIL_INTERVENED") done)

abbrev service : String → GuardrailRule → GuardrailProfile → Option Json
service source r p = some body

abbrev stopped : BedrockGuardrailResponse
stopped = record { action = intervened; violations = []; output_text = none }

abbrev stops : String → GuardrailRule → GuardrailProfile → Option BedrockGuardrailResponse
stops source r p = some stopped

region_run : validate_region (chars "us-east-1") ≡ true
unfolding validate_region utf8_len
region_run = refl

validate-intervened_example :
    (result : GuardrailCheckResult) × (validate holds rolled stops config "INPUT" ≡ some result)
    × (result.action ≡ intervened)
    × (result.passed ≡ false)
unfolding is_sampled
validate-intervened_example =
    validate-intervened holds rolled stops config "INPUT" rule profile stopped 0 0 0 refl refl refl
      refl refl refl refl refl ((λ same. refl), tt) refl refl refl

answered :
    validate holds rolled (apply_guardrail service) config "INPUT"
    ≡ some (record {
      passed = false;
      action = intervened;
      results =
          (record { rule_id = "r"; profile_id = "p"; action = intervened; violations = [] }) ∷ [];
    })
unfolding validate apply_guardrail
answered = refl

validate-ne-redacted_example : intervened ≢ redacted
validate-ne-redacted_example =
    validate-ne-redacted holds rolled service config "INPUT"
      (record {
        passed = false;
        action = intervened;
        results =
            (record { rule_id = "r"; profile_id = "p"; action = intervened; violations = [] }) ∷ [];
      })
      answered

sampled-min_example : (sampled 50 0 256 ≡ 150) × (12800 ≤ 100 * sampled 50 0 256)
sampled-min_example = sampled-min 50 (omega arith)

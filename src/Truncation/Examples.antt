-- ===== src/Truncation/Examples.antt =====
-- A truncated tool call and a truncated content.
use rkgw.Converters.Messages.{Json, string, object, done, field}
use rkgw.Truncation.Inject.{recover_message, inject_openai_truncation_recovery}
use rkgw.Truncation.Anthropic.{recover_anthropic_message, inject_anthropic_truncation_recovery}
use rkgw.Truncation.Inject.Woven.{woven, inject_truncation_recovery-woven}
use rkgw.Base.{
  List, [], ◌∷◌, String, true, false, none, some, ◌≡◌, ◌↔◌, ◌<◌, ◌^◌, length, refl, arith,
}
use rkgw.Base.Chars.{Text, chars, trim_start, is_whitespace, utf8_len}
use rkgw.Truncation.Diagnosis.{
  diagnose_json_truncation, diagnose_trimmed, trim, trim_end, balance_from, quotes_from, format_i32,
  decimal, digit,
}
use rkgw.Truncation.Diagnosis.Counted.{IsBalanced, diagnose_json_truncation-IsBalanced}
use rkgw.Truncation.{
  TruncationInfo, content_hash, get_tool_truncation, get_content_truncation, take_chars,
}
use rkgw.Truncation.Once.{
  Operation, save_tool, get_tool, save_content, pending_tool, pending_content, after,
  retrieved_once,
}

abbrev cut : TruncationInfo
cut = record { is_truncated = true; reason = "unbalanced braces (count: 1)"; size_bytes = 12 }

abbrev history : List Operation
history =
    save_content "It was" ∷ get_tool "b" ∷ save_tool "b" "read" cut ∷ save_tool "a" "shot" cut ∷ []

abbrev identity : String → String
identity s = s

pending_run :
    (pending_tool "a" history ≡ some (record { tool_name = "shot"; info = cut }))
    × (pending_tool "b" history ≡ none)
    × (pending_content identity "It was" history ≡ some (record { content_hash = "It was" }))
unfolding pending_tool pending_content content_hash take_chars
pending_run = (refl, refl, refl)

retrieved_once_example :
    ((get_tool_truncation (after identity history) "a").1 ≡ pending_tool "a" history)
    × ((get_content_truncation identity (after identity history) "It was").1
        ≡ pending_content identity (content_hash identity "It was") history)
retrieved_once_example = retrieved_once identity history "a" "It was"

abbrev messages : List Json
messages =
    object (field "content" (string "It was") (field "role" (string "assistant") done))
    ∷ object (field "content" (string "Go on") (field "role" (string "user") done))
    ∷ object (
        field "content" (string "1")
          (field "role" (string "tool") (field "tool_call_id" (string "a") done)))
    ∷ []

inject_truncation_recovery-woven_example :
    let state = after identity history in
    (inject_openai_truncation_recovery identity state messages
      ≡ woven (recover_message identity) state messages)
    × (inject_anthropic_truncation_recovery identity state messages
        ≡ woven (recover_anthropic_message identity) state messages)
inject_truncation_recovery-woven_example =
    inject_truncation_recovery-woven identity (after identity history) messages

abbrev answer : Text
answer = chars " {\"a\": [1]}"

abbrev brace_in_text : Text
brace_in_text = chars "{\"a\": \"{\"}"

-- A brace inside a string counts as well.
brace_run :
    diagnose_json_truncation brace_in_text
    ≡ record { is_truncated = true; reason = "unbalanced braces (count: 1)"; size_bytes = 10 }
unfolding diagnose_json_truncation diagnose_trimmed trim trim_start trim_end is_whitespace
    balance_from quotes_from format_i32 decimal digit utf8_len
brace_run = refl

answer-fits : length (trim answer) < 2 ^ 31
unfolding trim trim_start trim_end is_whitespace
answer-fits = omega arith

diagnose_json_truncation-IsBalanced_example :
    ((diagnose_json_truncation answer).is_truncated ≡ false) ↔ IsBalanced (trim answer)
diagnose_json_truncation-IsBalanced_example = diagnose_json_truncation-IsBalanced answer answer-fits

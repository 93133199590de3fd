-- ===== src/Streaming/Events.antt =====
-- backend/src/streaming/mod.rs: `parse_kiro_event_with_accumulator`. A floating-point number is its JSON literal;
-- `as_i64` is the method of `serde_json` on it, and `thousandfold` stands for `(usage_num * 1000.0) as i32`.
use rkgw.Base.{
  ℕ, ◌-◌, ◌%◌, ◌^◌, String, Bool, true, false, ◌||◌, Option, none, some, ltb, if◌then◌else◌,
  unwrap_or, is_some, ◌>>=◌,
}
use rkgw.Base.Chars.{Text, chars}
use rkgw.Base.Int.{ℤ, pos, negsuc}
use rkgw.Converters.Messages.{Json, number, object, done}
use rkgw.Converters.Choice.{get, as_text}
use rkgw.Streaming.Accumulator.{ToolUse, ToolCallAccumulator, process_event}

pub record Usage : Type 0 where
  pub input_tokens : ℤ
  pub output_tokens : ℤ

pub record KiroEvent : Type 0 where
  pub event_type : String
  pub content : Option Text
  pub thinking_content : Option Text
  pub tool_use : Option ToolUse
  pub usage : Option Usage
  pub context_usage_percentage : Option String
  pub is_first_thinking_chunk : Bool
  pub is_last_thinking_chunk : Bool

abbrev pub bare_event : String → KiroEvent
bare_event event_type = record {
  event_type = event_type;
  content = none;
  thinking_content = none;
  tool_use = none;
  usage = none;
  context_usage_percentage = none;
  is_first_thinking_chunk = false;
  is_last_thinking_chunk = false;
}

abbrev pub content_event : Text → KiroEvent
content_event t = record (bare_event "content") { content = some t }

abbrev pub tool_event : ToolUse → KiroEvent
tool_event call = record (bare_event "tool_use") { tool_use = some call }

abbrev pub usage_event : ℤ → ℤ → KiroEvent
usage_event input_tokens output_tokens = record (bare_event "usage") {
  usage = some (record { input_tokens = input_tokens; output_tokens = output_tokens });
}

-- `as i32`: the low 32 bits of an i64, read with their sign.
abbrev signed_word : ℕ → ℤ
signed_word w = if ltb w (2 ^ 31) then pos w else negsuc (2 ^ 32 - 1 - w)

unfoldable pub as_i32 : ℤ → ℤ
as_i32 (pos n) = signed_word (n % 2 ^ 32)
as_i32 (negsuc n) = signed_word (2 ^ 32 - 1 - n % 2 ^ 32)

abbrev pub as_number : Json → Option String
as_number (number n) = some n
as_number _ = none

abbrev pub is_object : Json → Bool
is_object (object fields) = true
is_object _ = false

-- The first of two answers; the second is only asked without the first.
abbrev pub or_event : Option KiroEvent → Option KiroEvent → Option KiroEvent
or_event none other = other
or_event (some event) other = some event

unfoldable pub context_usage_of : Json → Option KiroEvent
unfolding get
context_usage_of json = get json "contextUsagePercentage" >>= as_number >>= λ percentage.
    some (record (bare_event "context_usage") { context_usage_percentage = some percentage })

abbrev text_or : Option String → String
text_or o = unwrap_or o ""

-- A tool call in one event.
unfoldable pub legacy_tool : Json → KiroEvent
unfolding get
legacy_tool tool_use = tool_event (record {
  tool_use_id = text_or (get tool_use "toolUseId" >>= as_text);
  name = text_or (get tool_use "name" >>= as_text);
  input = unwrap_or (get tool_use "input") (object done);
  truncation_info = none;
})

unfoldable pub legacy_delta : Json → Option KiroEvent
unfolding get legacy_tool
legacy_delta json = get json "contentBlockDelta" >>= λ block. get block "delta" >>= λ delta.
    or_event (get delta "text" >>= as_text >>= λ t. some (content_event (chars t)))
      (get delta "toolUse" >>= λ tool_use. some (legacy_tool tool_use))

unfoldable pub content_of : Json → Option String
unfolding get
content_of json = get json "content" >>= as_text

abbrev pub tool_part : Json → Bool
unfolding get
tool_part json =
    is_some (get json "name") || is_some (get json "input") || is_some (get json "stop")

abbrev pub as_tool_event :
    ToolCallAccumulator × Option ToolUse → ToolCallAccumulator × Option KiroEvent
as_tool_event (acc, none) = (acc, none)
as_tool_event (acc, some call) = (acc, some (tool_event call))

module _ (as_i64 : String → Option ℤ) (thousandfold : String → ℤ) where
  -- `usage.get(key).and_then(|v| v.as_i64()).unwrap_or(0) as i32`
  unfoldable pub tokens_at : Json → String → ℤ
  unfolding get as_i32
  tokens_at usage key = as_i32 (unwrap_or (get usage key >>= as_number >>= as_i64) (pos 0))

  abbrev pub token_event : Json → KiroEvent
  token_event usage = usage_event (tokens_at usage "inputTokens") (tokens_at usage "outputTokens")

  abbrev pub usage_from : Json → Option KiroEvent
  usage_from (number n) = some (usage_event (pos 0) (thousandfold n))
  usage_from (object fields) = some (token_event (object fields))
  usage_from _ = none

  unfoldable pub usage_of : Json → Option KiroEvent
  unfolding tokens_at get
  usage_of json = get json "usage" >>= usage_from

  unfoldable pub legacy_usage : Json → Option KiroEvent
  unfolding get tokens_at
  legacy_usage json =
      get json "metadata" >>= λ metadata. get metadata "usage" >>= λ usage. some (token_event usage)

  -- What is neither text nor part of a tool call.
  unfoldable pub other_event : Json → Option KiroEvent
  unfolding usage_of context_usage_of legacy_delta legacy_usage
  other_event json =
      or_event (usage_of json)
        (or_event (context_usage_of json) (or_event (legacy_delta json) (legacy_usage json)))

  module _ (from_str : String → Option Json) (to_string : Json → String) where
    unfoldable pub parse_kiro_event_with_accumulator :
        ToolCallAccumulator → Json → ToolCallAccumulator × Option KiroEvent
    unfolding get content_of other_event process_event
    parse_kiro_event_with_accumulator acc json =
        if is_some (get json "followupPrompt") then (acc, none) else elim (content_of json) [
          | some content ↦ (acc, some (content_event (chars content)))
          | none ↦
              (if tool_part json
                then as_tool_event (process_event from_str to_string acc json)
                else (acc, other_event json))
        ]

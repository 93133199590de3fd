-- ===== src/Streaming/CrossFormat/ToAnthropic.antt =====
-- backend/src/streaming/cross_format.rs: `OpenAIToAnthropicState`. The parameters are the text of a new
-- uuid, for the message and for a tool's block, and the printing of an i32. An index is an i32 that
-- wraps around, as in a release build.
pub mod Blocks
pub mod Whole
mod Examples
use Prim.Native.String.{◌++◌ as join}
use rkgw.Base.{
  ℕ, zero, suc, String, Bool, true, false, List, [], ◌∷◌, ◌++◌, Option, none, some, eqb,
  if◌then◌else◌, unwrap_or, ◌==◌, string_eq, ◌>>=◌,
}
use rkgw.Base.Int.{ℤ, pos, negsuc, int_eq}
use rkgw.Base.Maps.{Map, lookup, insert}
use rkgw.Base.Text.{is_empty_str}
use rkgw.Converters.Messages.{Json, number, string, array, object, end, done, field}
use rkgw.Streaming.CrossFormat.{
  PromptTokensDetails, ChatCompletionUsage, FunctionCallDelta, ToolCallDelta,
  ChatCompletionChunkDelta, ChatCompletionChunkChoice, ChatCompletionChunk, Delta, text_delta,
  input_json_delta, MessageDeltaUsage, StreamEvent, message_start, content_block_start,
  content_block_delta, content_block_stop, message_delta, message_stop,
}

pub record OpenaiToAnthropicState : Type 0 where
  pub message_id : String
  pub model : String
  pub content_block_index : ℤ
  pub has_started_message : Bool
  pub has_started_text_block : Bool
  pub tool_block_indices : Map ℤ ℤ

-- An i32 and one more.
unfoldable pub bump : ℤ → ℤ
bump (pos n) = if eqb n 2147483647 then negsuc 2147483647 else pos (suc n)
bump (negsuc zero) = pos 0
bump (negsuc (suc n)) = negsuc n

abbrev pub indices : Map ℤ ℤ → List ℤ
indices [] = []
indices ((k, v) ∷ m) = v ∷ indices m

abbrev pub stops : List ℤ → List StreamEvent
stops [] = []
stops (i ∷ is) = content_block_stop i ∷ stops is

abbrev pub text_content : Json
text_content = object (field "text" (string "") (field "type" (string "text") done))

abbrev pub open_text : Bool → ℤ → List StreamEvent → List StreamEvent
open_text true index events = events
open_text false index events = content_block_start index text_content ∷ events

unfoldable pub push_text :
    OpenaiToAnthropicState → Option String → OpenaiToAnthropicState × List StreamEvent
push_text s none = (s, [])
push_text s (some content) = if is_empty_str content then (s, []) else (
  record s { has_started_text_block = true },
  open_text s.has_started_text_block s.content_block_index
      (content_block_delta s.content_block_index (text_delta content) ∷ []),
)

unfoldable pub close_text : OpenaiToAnthropicState → OpenaiToAnthropicState × List StreamEvent
unfolding bump
close_text s =
    if s.has_started_text_block
    then (
      record s { content_block_index = bump s.content_block_index; has_started_text_block = false },
      content_block_stop s.content_block_index ∷ [],
    )
    else (s, [])

abbrev pub arguments_of : ToolCallDelta → Option String
arguments_of tc = tc.function >>= λ f. f.arguments

abbrev pub argument_events : ℤ → Option String → List StreamEvent
argument_events index none = []
argument_events index (some args) =
    if is_empty_str args then [] else content_block_delta index (input_json_delta args) ∷ []

abbrev pub stop_events : OpenaiToAnthropicState → List StreamEvent
stop_events s =
    let tools = stops (indices s.tool_block_indices) in
    if s.has_started_text_block then content_block_stop s.content_block_index ∷ tools else tools

unfoldable pub stop_reason : String → String
stop_reason reason =
    if reason == "tool_calls"
    then "tool_use"
    else if reason == "length"
    then "max_tokens"
    else "end_turn"

abbrev pub reason_delta : String → Json
reason_delta reason = object (field "stop_reason" (string reason) done)

unfoldable pub finish :
    OpenaiToAnthropicState → Option ChatCompletionUsage → Option String → List StreamEvent
unfolding stop_reason
finish s usage none = []
finish s usage (some reason) =
    let tokens : ℤ = elim usage [ none ↦ pos 0 | some u ↦ u.completion_tokens ] in
    stop_events s
    ++ (message_delta (reason_delta (stop_reason reason)) (record { output_tokens = tokens })
        ∷ message_stop
        ∷ [])

abbrev pub usage_events : Option ChatCompletionUsage → List StreamEvent
usage_events none = []
usage_events (some usage) =
    message_delta (reason_delta "end_turn") (record { output_tokens = usage.completion_tokens })
    ∷ []

module _ (simple_uuid : ℤ → String) (print_i32 : ℤ → String) where
  -- The state of a new stream, with the text of its uuid.
  abbrev pub new : String → String → OpenaiToAnthropicState
  new uuid model = record {
    message_id = join "msg_" uuid;
    model = model;
    content_block_index = pos 0;
    has_started_message = false;
    has_started_text_block = false;
    tool_block_indices = [];
  }

  unfoldable pub usage_json : Option ChatCompletionUsage → Json
  usage_json usage =
      let tokens = field "input_tokens" (number "0") (field "output_tokens" (number "0") done) in
      elim (usage >>= λ u. u.prompt_tokens_details >>= λ d. d.cached_tokens) [
        | none ↦ object tokens
        | some cached ↦ object (field "cache_read_input_tokens" (number (print_i32 cached)) tokens)
      ]

  unfoldable pub start_message :
      OpenaiToAnthropicState
      → Option ChatCompletionUsage
      → OpenaiToAnthropicState × List StreamEvent
  unfolding usage_json
  start_message s usage = if s.has_started_message then (s, []) else (
    record s { has_started_message = true },
    message_start (
          object (
            field "content" (array end) (
              field "id" (string s.message_id) (
                field "model" (string s.model) (
                  field "role" (string "assistant")
                    (field "type" (string "message") (field "usage" (usage_json usage) done)))))))
        ∷ [],
  )

  abbrev pub tool_content : ℤ → ToolCallDelta → Json
  tool_content index tc = object (
      field "id" (string (unwrap_or tc.id (join "toolu_" (simple_uuid index)))) (
        field "input" (object done) (
          field "name" (string (unwrap_or (tc.function >>= λ f. f.name) ""))
            (field "type" (string "tool_use") done))))

  -- The first delta of a tool call.
  unfoldable pub start_tool :
      OpenaiToAnthropicState → ToolCallDelta → OpenaiToAnthropicState × List StreamEvent
  unfolding close_text insert
  start_tool s tc =
      let (closed, events) = close_text s in
      let index = closed.content_block_index in
      (
        record closed {
          content_block_index = bump index;
          tool_block_indices = insert tc.index index closed.tool_block_indices;
        },
        events
            ++ (content_block_start index (tool_content index tc)
                ∷ argument_events index (arguments_of tc)),
      )

  unfoldable pub push_tool :
      OpenaiToAnthropicState → ToolCallDelta → OpenaiToAnthropicState × List StreamEvent
  unfolding start_tool lookup
  push_tool s tc = elim (lookup tc.index s.tool_block_indices) [
    | some index ↦ (s, argument_events index (arguments_of tc))
    | none ↦ start_tool s tc
  ]

  unfoldable pub push_tools :
      OpenaiToAnthropicState → List ToolCallDelta → OpenaiToAnthropicState × List StreamEvent
  unfolding push_tool
  push_tools s [] = (s, [])
  push_tools s (tc ∷ tool_calls) =
      let (next, events) = push_tool s tc in
      let (last, more) = push_tools next tool_calls in (last, events ++ more)

  -- Of the choices, only the first is read.
  unfoldable pub translate_choices :
      OpenaiToAnthropicState
      → Option ChatCompletionUsage
      → List ChatCompletionChunkChoice
      → OpenaiToAnthropicState × List StreamEvent
  unfolding push_text push_tools finish
  translate_choices s usage [] = (s, usage_events usage)
  translate_choices s usage (choice ∷ more) =
      let (with_text, texts) = push_text s choice.delta.content in
      let (last, tools) = push_tools with_text (unwrap_or choice.delta.tool_calls []) in
      (last, texts ++ (tools ++ finish last usage choice.finish_reason))

  unfoldable pub translate_chunk :
      OpenaiToAnthropicState → ChatCompletionChunk → OpenaiToAnthropicState × List StreamEvent
  unfolding start_message translate_choices
  translate_chunk s chunk =
      let (started, start_events) = start_message s chunk.usage in
      let (next, events) = translate_choices started chunk.usage chunk.choices in
      (next, start_events ++ events)

  -- The events of a stream's chunks.
  unfoldable pub translate_chunks :
      OpenaiToAnthropicState → List ChatCompletionChunk → OpenaiToAnthropicState × List StreamEvent
  unfolding translate_chunk
  translate_chunks s [] = (s, [])
  translate_chunks s (chunk ∷ chunks) =
      let (next, events) = translate_chunk s chunk in
      let (last, more) = translate_chunks next chunks in (last, events ++ more)

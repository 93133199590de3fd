-- ===== src/Streaming/CrossFormat/ToOpenai.antt =====
-- backend/src/streaming/cross_format.rs: `AnthropicToOpenAIState`. `as_i64` reads the literal of a JSON number;
-- the time is an argument. An i32 wraps around, as in a release build.
pub mod RoundTrip
mod Examples
use Prim.Native.String.{◌++◌ as join}
use rkgw.Base.{
  ℕ, String, Bool, true, false, List, [], ◌∷◌, ◌++◌, Option, none, some, if◌then◌else◌, unwrap_or,
  ◌==◌, string_eq, ◌>>=◌, length,
}
use rkgw.Base.Int.{ℤ, pos, ◌+ℤ◌, int_eq}
use rkgw.Base.Maps.{Map, lookup, insert}
use rkgw.Converters.Messages.{Json}
use rkgw.Converters.Choice.{get, as_text}
use rkgw.Streaming.Events.{as_i32, as_number}
use rkgw.Streaming.CrossFormat.{
  PromptTokensDetails, ChatCompletionUsage, FunctionCallDelta, ToolCallDelta,
  ChatCompletionChunkDelta, ChatCompletionChunkChoice, ChatCompletionChunk, Delta, text_delta,
  thinking_delta, signature_delta, input_json_delta, MessageDeltaUsage, StreamEvent, message_start,
  content_block_start, content_block_delta, content_block_stop, message_delta, message_stop, ping,
}

pub record ToolBlockInfo : Type 0 where
  pub openai_index : ℤ
  pub id : String
  pub name : String
  pub started : Bool

pub record AnthropicToOpenaiState : Type 0 where
  pub chunk_id : String
  pub model : String
  pub tool_indices : Map ℤ ToolBlockInfo
  pub start_input_tokens : ℤ
  pub start_cache_creation_input_tokens : Option ℤ
  pub start_cache_read_input_tokens : Option ℤ

abbrev pub new : String → String → AnthropicToOpenaiState
new uuid model = record {
  chunk_id = join "chatcmpl-" uuid;
  model = model;
  tool_indices = [];
  start_input_tokens = pos 0;
  start_cache_creation_input_tokens = none;
  start_cache_read_input_tokens = none;
}

abbrev pub no_delta : ChatCompletionChunkDelta
no_delta = record { role = none; content = none; tool_calls = none; reasoning_content = none }

unfoldable pub start_block : AnthropicToOpenaiState → ℤ → Json → AnthropicToOpenaiState
unfolding get insert as_i32
start_block s index block =
    if unwrap_or (get block "type" >>= as_text) "" == "tool_use"
    then record s {
      tool_indices =
          insert index
            (record {
              openai_index = as_i32 (pos (length s.tool_indices));
              id = unwrap_or (get block "id" >>= as_text) "";
              name = unwrap_or (get block "name" >>= as_text) "";
              started = false;
            })
            s.tool_indices;
    }
    else s

-- The first delta of a tool call names it.
unfoldable pub tool_delta : ToolBlockInfo → String → ToolCallDelta
tool_delta info partial_json =
    if info.started
    then record {
      index = info.openai_index;
      id = none;
      tool_type = none;
      function = some (record { name = none; arguments = some partial_json });
    }
    else record {
      index = info.openai_index;
      id = some info.id;
      tool_type = some "function";
      function = some (record { name = some info.name; arguments = some partial_json });
    }

unfoldable pub finish_reason_of : String → String
finish_reason_of reason =
    if reason == "tool_use"
    then "tool_calls"
    else if reason == "max_tokens"
    then "length"
    else "stop"

module _ (as_i64 : String → Option ℤ) (created : ℤ) where
  abbrev pub make_chunk :
      AnthropicToOpenaiState
      → ChatCompletionChunkDelta
      → Option String
      → Option ChatCompletionUsage
      → ChatCompletionChunk
  make_chunk s delta finish_reason usage = record {
    id = s.chunk_id;
    object_type = "chat.completion.chunk";
    created = created;
    model = s.model;
    choices =
        (record { index = pos 0; delta = delta; finish_reason = finish_reason; logprobs = none })
        ∷ [];
    usage = usage;
    system_fingerprint = none;
  }

  unfoldable pub count_of : Json → String → Option ℤ
  unfolding get as_i32
  count_of usage key = get usage key >>= as_number >>= as_i64 >>= λ n. some (as_i32 n)

  unfoldable pub capture_usage : AnthropicToOpenaiState → Option Json → AnthropicToOpenaiState
  unfolding count_of
  capture_usage s none = s
  capture_usage s (some usage) = record s {
    start_input_tokens = unwrap_or (count_of usage "input_tokens") (pos 0);
    start_cache_creation_input_tokens = count_of usage "cache_creation_input_tokens";
    start_cache_read_input_tokens = count_of usage "cache_read_input_tokens";
  }

  unfoldable pub capture_start : AnthropicToOpenaiState → Json → AnthropicToOpenaiState
  unfolding capture_usage get
  capture_start s message =
      capture_usage (record s { model = unwrap_or (get message "model" >>= as_text) s.model })
        (get message "usage")

  abbrev pub tool_chunk : AnthropicToOpenaiState → ToolBlockInfo → String → ChatCompletionChunk
  unfolding tool_delta
  tool_chunk s info partial_json =
      make_chunk s (record no_delta { tool_calls = some (tool_delta info partial_json ∷ []) }) none
        none

  unfoldable pub translate_input :
      AnthropicToOpenaiState → ℤ → String → AnthropicToOpenaiState × Option ChatCompletionChunk
  unfolding lookup insert tool_delta
  translate_input s index partial_json = elim (lookup index s.tool_indices) [
    | none ↦ (s, none)
    | some info ↦ (
      record s { tool_indices = insert index (record info { started = true }) s.tool_indices },
      some (tool_chunk s info partial_json),
    )
  ]

  unfoldable pub translate_delta :
      AnthropicToOpenaiState → ℤ → Delta → AnthropicToOpenaiState × Option ChatCompletionChunk
  unfolding translate_input
  translate_delta s index (text_delta text) =
      (s, some (make_chunk s (record no_delta { content = some text }) none none))
  translate_delta s index (thinking_delta thinking) =
      (s, some (make_chunk s (record no_delta { reasoning_content = some thinking }) none none))
  translate_delta s index (input_json_delta partial_json) = translate_input s index partial_json
  translate_delta s index (signature_delta signature) = (s, none)

  unfoldable pub end_usage : AnthropicToOpenaiState → MessageDeltaUsage → ChatCompletionUsage
  unfolding as_i32
  end_usage s usage = record {
    prompt_tokens = s.start_input_tokens;
    completion_tokens = usage.output_tokens;
    total_tokens = as_i32 (s.start_input_tokens +ℤ usage.output_tokens);
    credits_used = none;
    prompt_tokens_details =
        s.start_cache_read_input_tokens >>= λ cached. some (record { cached_tokens = some cached });
  }

  unfoldable pub translate_event :
      AnthropicToOpenaiState → StreamEvent → AnthropicToOpenaiState × Option ChatCompletionChunk
  unfolding capture_start start_block translate_delta end_usage finish_reason_of get
  translate_event s (message_start message) =
      let next = capture_start s message in
      (next, some (make_chunk next (record no_delta { role = some "assistant" }) none none))
  translate_event s (content_block_start index block) = (start_block s index block, none)
  translate_event s (content_block_delta index delta) = translate_delta s index delta
  translate_event s (content_block_stop index) = (s, none)
  translate_event s (message_delta delta usage) = (
    s,
    some (
        make_chunk s no_delta
          (get delta "stop_reason" >>= as_text >>= λ reason. some (finish_reason_of reason))
          (some (end_usage s usage))),
  )
  translate_event s message_stop = (s, none)
  translate_event s ping = (s, none)

  abbrev pub push_chunk :
      Option ChatCompletionChunk → List ChatCompletionChunk → List ChatCompletionChunk
  push_chunk none chunks = chunks
  push_chunk (some chunk) chunks = chunk ∷ chunks

  -- The chunks of a stream's events.
  unfoldable pub translate_events :
      AnthropicToOpenaiState → List StreamEvent → AnthropicToOpenaiState × List ChatCompletionChunk
  unfolding translate_event
  translate_events s [] = (s, [])
  translate_events s (event ∷ events) =
      let (next, chunk) = translate_event s event in
      let (last, chunks) = translate_events next events in (last, push_chunk chunk chunks)

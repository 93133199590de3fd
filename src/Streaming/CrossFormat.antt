-- ===== src/Streaming/CrossFormat.antt =====
-- backend/src/streaming/cross_format.rs with the stream types of backend/src/models/openai.rs and
-- backend/src/models/anthropic.rs: the stream of one format as a stream of the other. ToAnthropic holds
-- `OpenAIToAnthropicState`, ToOpenai `AnthropicToOpenAIState`. An f64 is its literal.
pub mod ToAnthropic
pub mod ToOpenai
use rkgw.Base.{ℕ, String, List, Option}
use rkgw.Base.Int.{ℤ}
use rkgw.Converters.Messages.{Json}

pub record PromptTokensDetails : Type 0 where
  pub cached_tokens : Option ℤ

pub record ChatCompletionUsage : Type 0 where
  pub prompt_tokens : ℤ
  pub completion_tokens : ℤ
  pub total_tokens : ℤ
  pub credits_used : Option String
  pub prompt_tokens_details : Option PromptTokensDetails

pub record FunctionCallDelta : Type 0 where
  pub name : Option String
  pub arguments : Option String

pub record ToolCallDelta : Type 0 where
  pub index : ℤ
  pub id : Option String
  pub tool_type : Option String
  pub function : Option FunctionCallDelta

pub record ChatCompletionChunkDelta : Type 0 where
  pub role : Option String
  pub content : Option String
  pub tool_calls : Option (List ToolCallDelta)
  pub reasoning_content : Option String

pub record ChatCompletionChunkChoice : Type 0 where
  pub index : ℤ
  pub delta : ChatCompletionChunkDelta
  pub finish_reason : Option String
  pub logprobs : Option Json

pub record ChatCompletionChunk : Type 0 where
  pub id : String
  pub object_type : String
  pub created : ℤ
  pub model : String
  pub choices : List ChatCompletionChunkChoice
  pub usage : Option ChatCompletionUsage
  pub system_fingerprint : Option String

pub data Delta : Type 0 where
  text_delta : (text : String) → Delta
  thinking_delta : (thinking : String) → Delta
  signature_delta : (signature : String) → Delta
  input_json_delta : (partial_json : String) → Delta

pub record MessageDeltaUsage : Type 0 where
  pub output_tokens : ℤ

pub data StreamEvent : Type 0 where
  message_start : (message : Json) → StreamEvent
  content_block_start : (index : ℤ) → (content_block : Json) → StreamEvent
  content_block_delta : (index : ℤ) → Delta → StreamEvent
  content_block_stop : (index : ℤ) → StreamEvent
  message_delta : (delta : Json) → MessageDeltaUsage → StreamEvent
  message_stop ping : StreamEvent

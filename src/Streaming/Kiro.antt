-- ===== src/Streaming/Kiro.antt =====
-- backend/src/streaming/mod.rs: `parse_kiro_stream_with_thinking` with its thinking parser, as `parse_kiro_stream`
-- calls it. It puts together the event parser, the accumulator and the thinking parser. `none` is a
-- panic, in the middle of the stream too.
pub mod Routed
pub mod Content
pub mod Spoken
pub mod Whole
mod Examples
use rkgw.Base.{
  ℕ, String, Bool, true, false, List, [], ◌∷◌, ◌++◌, Option, none, some, ◌==◌, if◌then◌else◌,
  string_eq, ◌>>=◌,
}
use rkgw.Base.Chars.{Text}
use rkgw.Base.Int.{ℤ}
use rkgw.Converters.Messages.{Json}
use rkgw.ThinkingParser
use rkgw.ThinkingParser.{ThinkingParser, ThinkingParseResult, process_for_output}
use rkgw.Streaming.Accumulator
use rkgw.Streaming.Accumulator.{ToolUse, ToolCallAccumulator}
use rkgw.Streaming.Events.{
  KiroEvent, bare_event, content_event, tool_event, parse_kiro_event_with_accumulator,
}
use rkgw.Streaming.Extract

pub data Chunk : Type 0 where
  bytes : List ℕ → Chunk
  broken : Chunk

pub data Yield : Type 0 where
  event : KiroEvent → Yield
  stream_error : Yield

pub record Parsers : Type 0 where
  pub buffer : Text
  pub tools : ToolCallAccumulator
  pub thinking : ThinkingParser

unfoldable pub start : Parsers
unfolding ThinkingParser.new
start = record { buffer = []; tools = Accumulator.new; thinking = ThinkingParser.new }

abbrev pub thinking_event : ThinkingParseResult → Text → KiroEvent
thinking_event result t = record (bare_event "thinking") {
  thinking_content = some t;
  is_first_thinking_chunk = result.is_first_thinking_chunk;
  is_last_thinking_chunk = result.is_last_thinking_chunk;
}

abbrev pub push_thinking : ThinkingParseResult → Option Text → List KiroEvent → List KiroEvent
push_thinking result none events = events
push_thinking result (some t) events = thinking_event result t ∷ events

abbrev pub push_regular : Option Text → List KiroEvent → List KiroEvent
push_regular none events = events
push_regular (some t) events = content_event t ∷ events

-- The events that one answer of the thinking parser makes.
unfoldable pub split_content : ThinkingParseResult × ThinkingParser → List KiroEvent
unfolding process_for_output
split_content (result, p) =
    push_thinking result
      (result.thinking_content >>= λ t.
        process_for_output p t result.is_first_thinking_chunk result.is_last_thinking_chunk)
      (push_regular result.regular_content [])

-- An event behind the accumulator: text goes through the thinking parser.
unfoldable pub route_event : ThinkingParser → KiroEvent → Option (ThinkingParser × List KiroEvent)
unfolding split_content ThinkingParser.feed
route_event p e =
    if e.event_type == "content"
    then elim e.content [
      | none ↦ some (p, [])
      | some content ↦
          ThinkingParser.feed p content >>= λ (result, q). some (q, split_content (result, q))
    ]
    else some (p, e ∷ [])

abbrev pub route : ThinkingParser → Option KiroEvent → Option (ThinkingParser × List KiroEvent)
route p none = some (p, [])
route p (some e) = route_event p e

abbrev pub yields : List KiroEvent → List Yield
yields [] = []
yields (e ∷ events) = event e ∷ yields events

abbrev pub tool_yield : Option ToolUse → List Yield
tool_yield none = []
tool_yield (some call) = event (tool_event call) ∷ []

-- What the call of the stream answers: an error, or the stream.
pub data Response : Type 0 where
  first_token_timeout first_chunk_broken : Response
  streaming : List Yield → Response

module _ (from_text : Text → Option Json) (from_str : String → Option Json)
    (to_string : Json → String) (as_i64 : String → Option ℤ) (thousandfold : String → ℤ) where
  -- The loop over the JSON values of a chunk.
  unfoldable pub process_jsons :
      ToolCallAccumulator
      → ThinkingParser
      → List Json
      → Option ((ToolCallAccumulator × ThinkingParser) × List KiroEvent)
  unfolding route_event parse_kiro_event_with_accumulator
  process_jsons tools p [] = some ((tools, p), [])
  process_jsons tools p (json ∷ jsons) =
      let (tools', parsed) =
        parse_kiro_event_with_accumulator as_i64 thousandfold from_str to_string tools json in
      route p parsed >>= λ (p', events).
      process_jsons tools' p' jsons >>= λ (left, more). some (left, events ++ more)

  unfoldable pub process_chunk : Parsers → List ℕ → Option (Parsers × List KiroEvent)
  unfolding process_jsons Extract.feed
  process_chunk parsers chunk = Extract.feed from_text parsers.buffer chunk >>= λ (jsons, rest).
      process_jsons parsers.tools parsers.thinking jsons >>= λ ((tools, p), events).
      some (record { buffer = rest; tools = tools; thinking = p }, events)

  -- The stream behind its beginning. A broken chunk finalizes the accumulator, and the stream goes on.
  unfoldable pub stream_from : Parsers → List Chunk → Option (List Yield)
  unfolding process_chunk Accumulator.finalize
  stream_from parsers [] =
      let (tools, call) = Accumulator.finalize from_str to_string parsers.tools in
      some (tool_yield call)
  stream_from parsers (bytes chunk ∷ chunks) = process_chunk parsers chunk >>= λ (next, events).
      stream_from next chunks >>= λ later. some (yields events ++ later)
  stream_from parsers (broken ∷ chunks) =
      let (tools, call) = Accumulator.finalize from_str to_string parsers.tools in
      stream_from (record parsers { tools = tools }) chunks >>= λ later.
      some (tool_yield call ++ (stream_error ∷ later))

  -- `late` says that the first chunk did not arrive in time.
  unfoldable pub parse_kiro_stream : Bool → List Chunk → Option Response
  unfolding stream_from start
  parse_kiro_stream true chunks = some first_token_timeout
  parse_kiro_stream false [] = some (streaming [])
  parse_kiro_stream false (broken ∷ chunks) = some first_chunk_broken
  parse_kiro_stream false (bytes chunk ∷ chunks) =
      stream_from start (bytes chunk ∷ chunks) >>= λ l. some (streaming l)

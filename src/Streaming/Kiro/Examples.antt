-- ===== src/Streaming/Kiro/Examples.antt =====
-- An answer with thinking content in two chunks, and one that stays in the thinking parser.
use Prim.Native.String.{String}
use rkgw.Base.{
  ℕ, false, List, [], ◌∷◌, ◌++◌, Option, none, some, unwrap_or, if◌then◌else◌, ◌≡◌, refl,
}
use rkgw.Base.Chars.{Text, chars, find, starts_with, split_at, utf8_len}
use rkgw.Base.Int.{ℤ, pos}
use rkgw.Base.Utf8.{from_utf8_lossy}
use rkgw.Converters.Messages.{Json, object, string, number, field, done}
use rkgw.Converters.Choice.{get, get_field}
use rkgw.ThinkingParser
use rkgw.ThinkingParser.{ThinkingParser, default_tags, run}
use rkgw.ThinkingParser.Whole.{IsParsed, concat}
use rkgw.Streaming.Accumulator
use rkgw.Streaming.Accumulator.{finalize_current}
use rkgw.Streaming.Events.{
  KiroEvent, content_event, usage_event, content_of, usage_of, context_usage_of, legacy_usage,
}
use rkgw.Streaming.Extract
use rkgw.Streaming.Extract.{
  earliest_from, scan_step, scan_brace, find_matching_brace, cut, extract, extract_all,
}
use rkgw.Streaming.Extract.Chunks.{whole, lossy_text}
use rkgw.Streaming.Kiro.{event, Response, streaming, stream_from, yields, parse_kiro_stream}
use rkgw.Streaming.Kiro.Routed.{thinking_of, regular_of, others_of}
use rkgw.Streaming.Kiro.Whole.{all_bytes, parse_kiro_stream-lossy_text, parse_kiro_stream-IsParsed}

-- A JSON parser for one event, whose content is `content`.
abbrev parser : String → Text → Option Json
parser content text = some (object (field "content" (string content) done))

abbrev read_none : String → Option Json
read_none s = none

abbrev to_string : Json → String
to_string json = ""

abbrev as_i64 : String → Option ℤ
as_i64 n = none

abbrev thousandfold : String → ℤ
thousandfold n = pos 0

abbrev chunks : List (List ℕ)
chunks = chars "{\"content\":" ∷ chars "1}" ∷ []

abbrev joined : List (List ℕ)
joined = chars "{\"content\":1}" ∷ []

abbrev sent : String → Option Response
sent content =
    parse_kiro_stream (parser content) read_none to_string as_i64 thousandfold false
      (all_bytes chunks)

found :
    (content : String)
    → whole (parser content) (lossy_text chunks)
      ≡ some (object (field "content" (string content) done) ∷ [], [])
unfolding extract_all extract earliest_from find starts_with find_matching_brace scan_brace cut
    split_at from_utf8_lossy utf8_len
found content = refl

-- An answer that ends in the middle of a tag is not sent at all.
lost_run : sent "<thin" ≡ some (streaming [])
unfolding parse_kiro_stream stream_from Extract.extract_all extract earliest_from find starts_with
    find_matching_brace scan_brace cut split_at from_utf8_lossy utf8_len ThinkingParser.feed
    ThinkingParser.handle_pre_content ThinkingParser.find_tag ThinkingParser.is_partial
    ThinkingParser.could_be_tag_prefix ThinkingParser.after_pre_content
lost_run = refl

sent_run : sent "hi" ≡ some (streaming (event (content_event (chars "hi")) ∷ []))
unfolding parse_kiro_stream stream_from Extract.extract_all extract earliest_from find starts_with
    find_matching_brace scan_brace cut split_at from_utf8_lossy utf8_len ThinkingParser.feed
    ThinkingParser.handle_pre_content ThinkingParser.find_tag ThinkingParser.is_partial
    ThinkingParser.could_be_tag_prefix ThinkingParser.after_pre_content
sent_run = refl

parse_kiro_stream-lossy_text_example :
    parse_kiro_stream (parser "hi") read_none to_string as_i64 thousandfold false (all_bytes chunks)
    ≡ parse_kiro_stream
        (parser "hi")
        read_none
        to_string
        as_i64
        thousandfold
        false
        (all_bytes joined)
unfolding from_utf8_lossy
parse_kiro_stream-lossy_text_example =
    parse_kiro_stream-lossy_text (parser "hi") read_none to_string as_i64 thousandfold chunks joined
      refl

-- A text and a measure of the usage, in two chunks.
abbrev measure_json : Json
measure_json = object (field "usage" (number "1") done)

abbrev two_events : Text → Option Json
unfolding starts_with
two_events t =
    if starts_with t (chars "{\"content")
    then some (object (field "content" (string "hi") done))
    else some measure_json

abbrev measured_chunks : List (List ℕ)
measured_chunks = chars "{\"content\":1}{\"us" ∷ chars "age\":1}" ∷ []

found_both :
    whole two_events (lossy_text measured_chunks)
    ≡ some (object (field "content" (string "hi") done) ∷ measure_json ∷ [], [])
unfolding extract_all extract earliest_from find starts_with find_matching_brace scan_brace cut
    split_at from_utf8_lossy utf8_len
found_both = refl

parse_kiro_stream-IsParsed_example :
    let texts = chars "hi" ∷ [] in
    (events : List KiroEvent) × (q : ThinkingParser) × (parse_kiro_stream two_events read_none
        to_string as_i64 thousandfold false
        (all_bytes measured_chunks)
      ≡ some (streaming (yields events ++ [])))
    × (others_of events ≡ usage_event (pos 0) (pos 0) ∷ [])
    × (run ThinkingParser.new texts ≡ some (thinking_of events, regular_of events, q))
    × (let last = (ThinkingParser.finalize q).0 in
        IsParsed default_tags
          (concat texts)
          (thinking_of events ++ unwrap_or last.thinking_content [])
          (regular_of events ++ unwrap_or last.regular_content []))
unfolding get get_field content_of usage_of context_usage_of legacy_usage finalize_current
    Accumulator.finalize
parse_kiro_stream-IsParsed_example =
    parse_kiro_stream-IsParsed two_events read_none to_string as_i64 thousandfold measured_chunks
      (object (field "content" (string "hi") done) ∷ measure_json ∷ []) [] found_both

-- ===== src/Streaming/CrossFormat/ToOpenai/Examples.antt =====
-- Two pieces of text through both translations, and one of a second choice.
use rkgw.Base.{String, List, [], ◌∷◌, Option, none, some, ◌≡◌}
use rkgw.Base.Int.{ℤ, pos}
use rkgw.Streaming.CrossFormat.{ChatCompletionChunkChoice, ChatCompletionChunk}
use rkgw.Streaming.CrossFormat.ToAnthropic
use rkgw.Streaming.CrossFormat.ToAnthropic.{translate_chunks}
use rkgw.Streaming.CrossFormat.ToOpenai
use rkgw.Streaming.CrossFormat.ToOpenai.{translate_events}
use rkgw.Streaming.CrossFormat.ToOpenai.RoundTrip.{contents, contents_round_trip}

abbrev uuid_text : ℤ → String
uuid_text i = "0"

abbrev read_none : String → Option ℤ
read_none n = none

abbrev choice : ℤ → String → ChatCompletionChunkChoice
choice index text = record {
  index = index;
  delta = record { role = none; content = some text; tool_calls = none; reasoning_content = none };
  finish_reason = none;
  logprobs = none;
}

abbrev chunk_of : List ChatCompletionChunkChoice → ChatCompletionChunk
chunk_of choices = record {
  id = "c";
  object_type = "chat.completion.chunk";
  created = pos 0;
  model = "m";
  choices = choices;
  usage = none;
  system_fingerprint = none;
}

abbrev chunks : List ChatCompletionChunk
chunks =
    chunk_of (choice (pos 0) "Hel" ∷ choice (pos 1) "Bye" ∷ [])
    ∷ chunk_of (choice (pos 0) "lo" ∷ [])
    ∷ []

contents_round_trip_example :
    let events =
      (translate_chunks uuid_text uuid_text
        (ToAnthropic.new uuid_text uuid_text "u" "m")
        chunks).1 in
    contents (translate_events read_none (pos 0) (ToOpenai.new "v" "m") events).1 ≡ "Hello"
contents_round_trip_example =
    contents_round_trip uuid_text uuid_text read_none (pos 0)
      (ToAnthropic.new uuid_text uuid_text "u" "m") (ToOpenai.new "v" "m") chunks

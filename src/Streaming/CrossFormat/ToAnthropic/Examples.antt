-- ===== src/Streaming/CrossFormat/ToAnthropic/Examples.antt =====
-- Text and a tool call in one stream, which a chunk with the usage follows.
use rkgw.Base.{String, List, [], ◌∷◌, ◌++◌, Option, none, some, true, ◌≡◌, refl, arith}
use rkgw.Base.Int.{ℤ, pos}
use rkgw.Streaming.CrossFormat.{
  ChatCompletionUsage, ToolCallDelta, ChatCompletionChunkDelta, ChatCompletionChunkChoice,
  ChatCompletionChunk, message_delta,
}
use rkgw.Streaming.CrossFormat.ToAnthropic.{new, translate_chunks, reason_delta}
use rkgw.Streaming.CrossFormat.ToAnthropic.Blocks.{Reader, fresh_reader, read_all}
use rkgw.Streaming.CrossFormat.ToAnthropic.Whole.{translate_chunks-finished, translate_chunks-usage}

abbrev uuid_text : ℤ → String
uuid_text i = "0"

abbrev print_number : ℤ → String
print_number i = "0"

abbrev delta : Option String → Option (List ToolCallDelta) → ChatCompletionChunkDelta
delta content tool_calls = record {
  role = none;
  content = content;
  tool_calls = tool_calls;
  reasoning_content = none;
}

abbrev choice_of : ChatCompletionChunkDelta → Option String → ChatCompletionChunkChoice
choice_of d reason = record { index = pos 0; delta = d; finish_reason = reason; logprobs = none }

abbrev chunk_of : List ChatCompletionChunkChoice → Option ChatCompletionUsage → ChatCompletionChunk
chunk_of choices usage = record {
  id = "c";
  object_type = "chat.completion.chunk";
  created = pos 0;
  model = "m";
  choices = choices;
  usage = usage;
  system_fingerprint = none;
}

abbrev read_call : ToolCallDelta
read_call = record {
  index = pos 0;
  id = some "call";
  tool_type = some "function";
  function = some (record { name = some "read"; arguments = some "{}" });
}

abbrev chunks : List ChatCompletionChunk
chunks =
    chunk_of (choice_of (delta (some "Hi") none) none ∷ []) none
    ∷ chunk_of (choice_of (delta none (some (read_call ∷ []))) none ∷ []) none
    ∷ []

abbrev end_choice : ChatCompletionChunkChoice
end_choice = choice_of (delta none none) (some "tool_calls")

abbrev spent : ChatCompletionUsage
spent = record {
  prompt_tokens = pos 3;
  completion_tokens = pos 2;
  total_tokens = pos 5;
  credits_used = none;
  prompt_tokens_details = none;
}

translate_chunks-finished_example :
    let (s, events) =
      translate_chunks uuid_text print_number
        (new uuid_text print_number "u" "m")
        (chunks ++ (chunk_of (end_choice ∷ []) none ∷ [])) in
    (r : Reader) × (read_all fresh_reader events ≡ some r) × (r.stopped ≡ true) × (r.opened ≡ [])
translate_chunks-finished_example =
    translate_chunks-finished uuid_text print_number "u" "m" chunks
      (chunk_of (end_choice ∷ []) none) end_choice [] "tool_calls" (refl, (refl, tt)) refl refl
      (omega arith)

translate_chunks-usage_example :
    let s = new uuid_text print_number "u" "m" in
    let end = chunk_of (end_choice ∷ []) none in
    let before = (translate_chunks uuid_text print_number s (chunks ++ (end ∷ []))).1 in
    let all =
      (translate_chunks uuid_text print_number s
        (chunks ++ (end ∷ chunk_of [] (some spent) ∷ []))).1 in
    (all
      ≡ before ++ (message_delta (reason_delta "end_turn") (record { output_tokens = pos 2 }) ∷ []))
    × ((r : Reader) × (read_all fresh_reader before ≡ some r) × (r.stopped ≡ true))
    × (read_all fresh_reader all ≡ none)
translate_chunks-usage_example =
    translate_chunks-usage uuid_text print_number "u" "m" chunks (chunk_of (end_choice ∷ []) none)
      (chunk_of [] (some spent)) end_choice [] "tool_calls" spent (refl, (refl, tt)) refl refl
      (omega arith) refl refl

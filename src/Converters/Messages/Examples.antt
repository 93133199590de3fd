-- ===== src/Converters/Messages/Examples.antt =====
-- The message steps on a conversation in which a tool's result is followed by an image.
use rkgw.Base.{true, false, List, [], ◌∷◌, map, none, some, ◌≡◌, refl, All}
use rkgw.Converters.Messages.{
  text, ToolCall, ToolResult, UnifiedMessage, merge_adjacent_messages, merge_from, absorb,
  extract_text_content, normalize_messages,
}
use rkgw.Converters.Messages.Merged.{
  heads, role_and_images, user_results, assistant_calls, merge_adjacent_messages-heads,
  merge_adjacent_messages_keeps,
}
use rkgw.Converters.Messages.Paired.{IsPaired, normalize_messages-IsPaired}
use rkgw.Converters.Messages.Stripped.{has_tools, normalize_messages-has_tools}

abbrev question : UnifiedMessage
question = record {
  role = "user";
  content = text "What is on screen?";
  tool_calls = none;
  tool_results = none;
  images = none;
}

abbrev call : ToolCall
call = record {
  id = "c1";
  call_type = "function";
  function = record { name = "shot"; arguments = "{}" };
}

abbrev answer : UnifiedMessage
answer = record {
  role = "assistant";
  content = text "";
  tool_calls = some (call ∷ []);
  tool_results = none;
  images = none;
}

abbrev result : ToolResult
result = record { result_type = "tool_result"; tool_use_id = "c1"; content = "done" }

abbrev results : UnifiedMessage
results = record {
  role = "user";
  content = text "";
  tool_calls = none;
  tool_results = some (result ∷ []);
  images = none;
}

abbrev picture : UnifiedMessage
picture = record {
  role = "user";
  content = text "Here it is";
  tool_calls = none;
  tool_results = none;
  images = some (record { media_type = "image/png"; image_data = "AA==" } ∷ []);
}

abbrev conversation : List UnifiedMessage
conversation = question ∷ answer ∷ results ∷ picture ∷ []

-- The picture is gone from the merged messages.
picture_run :
    map role_and_images (merge_adjacent_messages conversation)
    ≡ ("user", none) ∷ ("assistant", none) ∷ ("user", none) ∷ []
unfolding merge_adjacent_messages merge_from absorb extract_text_content
picture_run = refl

merge_adjacent_messages-heads_example :
    map role_and_images (merge_adjacent_messages conversation)
    ≡ map role_and_images (heads conversation)
merge_adjacent_messages-heads_example = merge_adjacent_messages-heads conversation

merge_adjacent_messages_keeps_example :
    (user_results (merge_adjacent_messages conversation) ≡ user_results conversation)
    × (assistant_calls (merge_adjacent_messages conversation) ≡ assistant_calls conversation)
merge_adjacent_messages_keeps_example = merge_adjacent_messages_keeps conversation

normalize_messages-IsPaired_example :
    IsPaired none (normalize_messages false (results ∷ conversation))
normalize_messages-IsPaired_example = normalize_messages-IsPaired (results ∷ conversation)

normalize_messages-has_tools_example :
    All (λ (msg : UnifiedMessage). has_tools msg ≡ false) (normalize_messages true conversation)
normalize_messages-has_tools_example = normalize_messages-has_tools conversation

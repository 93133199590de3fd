-- ===== src/Converters/History.antt =====
-- backend/src/converters/core.rs: the history of a Kiro request; and the end of it, which
-- backend/src/converters/openai_to_kiro.rs adds. An object of a fixed shape is a record; a key that is left
-- out for an empty array is the empty list. Of `serde_json`, the parser and the length of a printed
-- value are parameters. A hash map's values come in an unspecified order, here that of insertion.
pub mod Alternating
mod Examples
use Prim.Native.String.{◌++◌ as join}
use rkgw.Base.{
  ℕ, ◌+◌, String, Bool, true, false, ◌&&◌, ◌||◌, List, [], ◌∷◌, ◌++◌, map, Option, none, some, ltb,
  ◌==◌, if◌then◌else◌, is_empty, unwrap_or, length, string_eq, ◌>>=◌,
}
use rkgw.Base.Text.{starts_with, split_once, strip_prefix, last_segment, is_empty_str}
use rkgw.Converters.Messages.{
  Json, object, done, ImageSource, ContentBlock, text_block, image_block, image_url_block,
  tool_result_block, tool_use_block, MessageContent, text, blocks, ToolCall, ToolResult,
  UnifiedImage, UnifiedMessage, extract_text_content,
}

abbrev until_char : String → ℕ → String
until_char s c = elim (split_once s c) [ none ↦ s | some (head, rest) ↦ head ]

unfoldable pub parse_data_url : String → Option (String × String)
parse_data_url url =
    if starts_with url "data:"
    then (split_once url b',' >>= λ (header, data_part).
        strip_prefix (until_char header b';') "data:" >>= λ media_type.
        some (media_type, data_part))
    else none

-- The image that a block holds, if Kiro takes it.
unfoldable pub block_image : ContentBlock → Option UnifiedImage
unfolding parse_data_url
block_image (image_url_block url) = elim (parse_data_url url) [
  | some (media_type, data_part) ↦
      (if is_empty_str data_part
        then none
        else some (record { media_type = media_type; image_data = data_part }))
  | none ↦
      (if starts_with url "http" || is_empty_str url
        then none
        else some (record { media_type = "image/jpeg"; image_data = url }))
]
block_image (image_block source) =
    if source.source_type == "base64"
    then elim source.data_base64 [
      | none ↦ none
      | some data_part ↦
          (if is_empty_str data_part
            then none
            else some (record {
              media_type = unwrap_or source.media_type "image/jpeg";
              image_data = data_part;
            }))
    ]
    else none
block_image _ = none

abbrev push_some {ℓ} : {A : Type ℓ} → Option A → List A → List A
push_some none xs = xs
push_some (some x) xs = x ∷ xs

unfoldable pub block_images : List ContentBlock → List UnifiedImage
unfolding block_image
block_images [] = []
block_images (block ∷ bs) = push_some (block_image block) (block_images bs)

unfoldable pub extract_images_from_content : MessageContent → List UnifiedImage
unfolding block_images
extract_images_from_content (text t) = []
extract_images_from_content (blocks bs) = block_images bs

pub record KiroImage : Type 0 where
  pub format : String
  pub bytes : String

unfoldable pub convert_image : UnifiedImage → Option KiroImage
unfolding parse_data_url
convert_image img =
    let (media_type, data_part) =
      unwrap_or (parse_data_url img.image_data) (img.media_type, img.image_data) in
    if is_empty_str data_part
    then none
    else some (record { format = last_segment media_type b'/'; bytes = data_part })

unfoldable pub convert_images_to_kiro_format : List UnifiedImage → List KiroImage
unfolding convert_image
convert_images_to_kiro_format [] = []
convert_images_to_kiro_format (img ∷ images) =
    push_some (convert_image img) (convert_images_to_kiro_format images)

pub record KiroToolResult : Type 0 where
  pub content_text : String
  pub status : String
  pub tool_use_id : String

unfoldable pub kiro_result : String → String → KiroToolResult
kiro_result tool_use_id content = record {
  content_text = if is_empty_str content then "(empty result)" else content;
  status = "success";
  tool_use_id = tool_use_id;
}

unfoldable pub convert_tool_results_to_kiro_format : List ToolResult → List KiroToolResult
unfolding kiro_result
convert_tool_results_to_kiro_format [] = []
convert_tool_results_to_kiro_format (tr ∷ results) =
    kiro_result tr.tool_use_id tr.content ∷ convert_tool_results_to_kiro_format results

unfoldable pub block_results : List ContentBlock → List KiroToolResult
unfolding kiro_result
block_results [] = []
block_results (tool_result_block tool_use_id content ∷ bs) =
    kiro_result tool_use_id content ∷ block_results bs
block_results (_ ∷ bs) = block_results bs

unfoldable pub extract_tool_results_from_content : MessageContent → List KiroToolResult
unfolding block_results
extract_tool_results_from_content (text t) = []
extract_tool_results_from_content (blocks bs) = block_results bs

pub record KiroToolUse : Type 0 where
  pub name : String
  pub input : Json
  pub tool_use_id : String

pub record UserInput : Type 0 where
  pub content : String
  pub model_id : String
  pub origin : String
  pub images : List KiroImage
  pub tool_results : List KiroToolResult

pub record AssistantResponse : Type 0 where
  pub content : String
  pub tool_uses : List KiroToolUse

pub data HistoryEntry : Type 0 where
  user_input_message : UserInput → HistoryEntry
  assistant_response_message : AssistantResponse → HistoryEntry

abbrev pub is_user_entry : HistoryEntry → Bool
is_user_entry (user_input_message u) = true
is_user_entry (assistant_response_message a) = false

abbrev or_empty : String → String
or_empty s = if is_empty_str s then "(empty)" else s

unfoldable pub build_kiro_user_input : UnifiedMessage → String → UserInput
unfolding extract_images_from_content convert_images_to_kiro_format
    convert_tool_results_to_kiro_format extract_tool_results_from_content
build_kiro_user_input msg model_id = record {
  content = or_empty (extract_text_content msg.content);
  model_id = model_id;
  origin = "AI_EDITOR";
  images =
      convert_images_to_kiro_format
        (unwrap_or msg.images (extract_images_from_content msg.content));
  tool_results = elim msg.tool_results [
    | some results ↦ convert_tool_results_to_kiro_format results
    | none ↦ extract_tool_results_from_content msg.content
  ];
}

unfoldable pub synthetic_user_input : String → UserInput
synthetic_user_input model_id = record {
  content = "(continued)";
  model_id = model_id;
  origin = "AI_EDITOR";
  images = [];
  tool_results = [];
}

module _ (from_str : String → Option Json) (printed_len : Json → ℕ) where
  unfoldable pub call_uses : List ToolCall → List KiroToolUse
  call_uses [] = []
  call_uses (tc ∷ calls) =
      record {
        name = tc.function.name;
        input = unwrap_or (from_str tc.function.arguments) (object done);
        tool_use_id = tc.id;
      }
      ∷ call_uses calls

  unfoldable pub block_uses : List ContentBlock → List KiroToolUse
  block_uses [] = []
  block_uses (tool_use_block id name input ∷ bs) =
      record { name = name; input = input; tool_use_id = id } ∷ block_uses bs
  block_uses (_ ∷ bs) = block_uses bs

  -- One tool use into the uses by id: one without id is kept, and of two the longer input. An id
  -- that is spelled like the key of a use without one is not considered.
  unfoldable pub insert_use : List KiroToolUse → KiroToolUse → List KiroToolUse
  insert_use [] use_ = use_ ∷ []
  insert_use (old ∷ uses) use_ =
      let rest = insert_use uses use_ in
      if not_empty use_.tool_use_id && (old.tool_use_id == use_.tool_use_id)
      then (if ltb (printed_len old.input) (printed_len use_.input)
          then use_ ∷ uses
          else old ∷ uses)
      else old ∷ rest
    where
      not_empty : String → Bool
      not_empty s = if is_empty_str s then false else true

  unfoldable pub insert_uses : List KiroToolUse → List KiroToolUse → List KiroToolUse
  unfolding insert_use
  insert_uses by_id [] = by_id
  insert_uses by_id (use_ ∷ uses) = insert_uses (insert_use by_id use_) uses

  unfoldable pub deduplicate_tool_uses_json : List KiroToolUse → List KiroToolUse
  unfolding insert_uses
  deduplicate_tool_uses_json uses = insert_uses [] uses

  unfoldable pub extract_tool_uses_from_message :
      MessageContent → Option (List ToolCall) → List KiroToolUse
  unfolding call_uses block_uses deduplicate_tool_uses_json
  extract_tool_uses_from_message content tool_calls = deduplicate_tool_uses_json (
      call_uses (unwrap_or tool_calls [])
      ++ elim content [ text t ↦ [] | blocks bs ↦ block_uses bs ])

  unfoldable pub build_kiro_assistant_response : UnifiedMessage → AssistantResponse
  unfolding extract_tool_uses_from_message
  build_kiro_assistant_response msg = record {
    content = or_empty (extract_text_content msg.content);
    tool_uses = extract_tool_uses_from_message msg.content msg.tool_calls;
  }

  -- The loop: the flag says whether the last entry so far is a user's.
  unfoldable pub history_from : Bool → List UnifiedMessage → String → List HistoryEntry
  unfolding build_kiro_assistant_response build_kiro_user_input synthetic_user_input
  history_from last_is_user [] model_id = []
  history_from last_is_user (msg ∷ messages) model_id = elim (msg.role == "user") [
    | true ↦
        user_input_message (build_kiro_user_input msg model_id)
        ∷ history_from true messages model_id
    | false ↦ elim (msg.role == "assistant") [
      | true ↦
          (let rest =
              assistant_response_message (build_kiro_assistant_response msg)
              ∷ history_from false messages model_id in
            if last_is_user
            then rest
            else user_input_message (synthetic_user_input model_id) ∷ rest)
      | false ↦ history_from last_is_user messages model_id
    ]
  ]

  unfoldable pub build_kiro_history : List UnifiedMessage → String → List HistoryEntry
  unfolding history_from
  build_kiro_history messages model_id = history_from false messages model_id

  -- The end of the history: a last message of the assistant goes into it too, behind a synthetic
  -- user's. The content may have the system prompt in front.
  unfoldable pub final_history :
      List UnifiedMessage → UnifiedMessage → String → String → List HistoryEntry
  unfolding build_kiro_history synthetic_user_input
  final_history history current current_content model_id =
      let entries = build_kiro_history history model_id in
      if current.role == "assistant"
      then entries
        ++ (user_input_message (synthetic_user_input model_id)
            ∷ assistant_response_message (record { content = current_content; tool_uses = [] })
            ∷ [])
      else entries

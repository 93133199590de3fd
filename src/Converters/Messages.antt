-- ===== src/Converters/Messages.antt =====
-- backend/src/converters/core.rs: the messages that all formats share, the handling of their tool
-- content, and the merging of neighbours; and backend/src/converters/openai_to_kiro.rs, which
-- composes these steps.
pub mod Merged
pub mod Paired
pub mod Stripped
mod Examples
use Prim.Native.String.{◌++◌ as join}
use rkgw.Base.{
  ℕ, ◌+◌, String, Bool, true, false, ◌&&◌, ◌||◌, List, [], ◌∷◌, ◌++◌, map, Option, none, some, ltb,
  ◌==◌, if◌then◌else◌, is_empty, unwrap_or, length, string_eq,
}
use rkgw.Base.Text.{is_empty_str}

-- `serde_json::Value`; a number is its literal.
mutual
  pub data Json : Type 0 where
    null : Json
    boolean : Bool → Json
    number : String → Json
    string : String → Json
    array : Items → Json
    object : Fields → Json

  pub data Items : Type 0 where
    end : Items
    item : Json → Items → Items

  pub data Fields : Type 0 where
    done : Fields
    field : String → Json → Fields → Fields

pub record ImageSource : Type 0 where
  pub source_type : String
  pub media_type : Option String
  pub data_base64 : Option String
  pub url : Option String

pub data ContentBlock : Type 0 where
  text_block : String → ContentBlock
  image_block : ImageSource → ContentBlock
  image_url_block : String → ContentBlock
  tool_result_block : (tool_use_id content : String) → ContentBlock
  tool_use_block : (id name : String) → Json → ContentBlock

pub data MessageContent : Type 0 where
  text : String → MessageContent
  blocks : List ContentBlock → MessageContent

pub record ToolFunction : Type 0 where
  pub name : String
  pub arguments : String

pub record ToolCall : Type 0 where
  pub id : String
  pub call_type : String
  pub function : ToolFunction

pub record ToolResult : Type 0 where
  pub result_type : String
  pub tool_use_id : String
  pub content : String

pub record UnifiedImage : Type 0 where
  pub media_type : String
  pub image_data : String

pub record UnifiedMessage : Type 0 where
  pub role : String
  pub content : MessageContent
  pub tool_calls : Option (List ToolCall)
  pub tool_results : Option (List ToolResult)
  pub images : Option (List UnifiedImage)

-- `text_parts.join("")`, block by block.
unfoldable pub block_texts : List ContentBlock → String
block_texts [] = ""
block_texts (text_block t ∷ rest) = join t (block_texts rest)
block_texts (tool_result_block id content ∷ rest) = join content (block_texts rest)
block_texts (_ ∷ rest) = block_texts rest

unfoldable pub extract_text_content : MessageContent → String
unfolding block_texts
extract_text_content (text t) = t
extract_text_content (blocks bs) = block_texts bs

-- `parts.join("\n\n")`
unfoldable pub join_parts : List String → String
join_parts [] = ""
join_parts (part ∷ []) = part
join_parts (part ∷ parts) = join part (join "\n\n" (join_parts parts))

unfoldable pub tool_call_text : ToolCall → String
tool_call_text tc =
    if is_empty_str tc.id
    then join "[Tool: " (join tc.function.name (join "]\n" tc.function.arguments))
    else join "[Tool: "
        (join tc.function.name (join " (" (join tc.id (join ")]\n" tc.function.arguments))))

unfoldable pub tool_calls_to_text : List ToolCall → String
unfolding join_parts tool_call_text
tool_calls_to_text calls = join_parts (map tool_call_text calls)

unfoldable pub tool_result_text : ToolResult → String
tool_result_text tr =
    let content = if is_empty_str tr.content then "(empty result)" else tr.content in
    if is_empty_str tr.tool_use_id
    then join "[Tool Result]\n" content
    else join "[Tool Result (" (join tr.tool_use_id (join ")]\n" content))

unfoldable pub tool_results_to_text : List ToolResult → String
unfolding join_parts tool_result_text
tool_results_to_text results = join_parts (map tool_result_text results)

-- `is_some_and(|l| !l.is_empty())`
abbrev pub is_filled {ℓ} : {A : Type ℓ} → Option (List A) → Bool
is_filled none = false
is_filled (some []) = false
is_filled (some (x ∷ xs)) = true

abbrev pub has_tool_calls : UnifiedMessage → Bool
has_tool_calls msg = is_filled msg.tool_calls

abbrev pub has_tool_results : UnifiedMessage → Bool
has_tool_results msg = is_filled msg.tool_results

abbrev push_part : String → List String → List String
push_part part parts = if is_empty_str part then parts else part ∷ parts

-- The text that stands for a message with tool content.
unfoldable pub stripped_text : UnifiedMessage → String
unfolding extract_text_content tool_calls_to_text tool_results_to_text join_parts
stripped_text msg =
    let results = push_part (tool_results_to_text (unwrap_or msg.tool_results [])) [] in
    let parts =
      push_part (extract_text_content msg.content)
        (push_part (tool_calls_to_text (unwrap_or msg.tool_calls [])) results) in
    if is_empty parts then "(empty)" else join_parts parts

unfoldable pub strip_message : UnifiedMessage → UnifiedMessage
unfolding stripped_text
strip_message msg =
    if has_tool_calls msg || has_tool_results msg
    then record msg { content = text (stripped_text msg); tool_calls = none; tool_results = none }
    else msg

-- The number of calls and of results that the loop counts.
unfoldable pub count_tools : List UnifiedMessage → ℕ × ℕ
count_tools [] = (0, 0)
count_tools (msg ∷ messages) =
    let (calls, results) = count_tools messages in
    (length (unwrap_or msg.tool_calls []) + calls, length (unwrap_or msg.tool_results []) + results)

unfoldable pub strip_all_tool_content : List UnifiedMessage → List UnifiedMessage × Bool
unfolding strip_message count_tools
strip_all_tool_content messages =
    let (calls, results) = count_tools messages in
    (map strip_message messages, ltb 0 calls || ltb 0 results)

-- The last message of the result is an assistant's with tool calls.
abbrev pub has_preceding_assistant : Option UnifiedMessage → Bool
has_preceding_assistant none = false
has_preceding_assistant (some last) = (last.role == "assistant") && has_tool_calls last

-- One round of the loop: the message to push, and whether its results were stripped.
unfoldable pub keep_results : Option UnifiedMessage → UnifiedMessage → UnifiedMessage × Bool
keep_results last msg =
    if has_tool_results msg && not_preceded last
    then (record msg { tool_results = none }, true)
    else (msg, false)
  where
    not_preceded : Option UnifiedMessage → Bool
    not_preceded last = if has_preceding_assistant last then false else true

unfoldable pub ensure_from :
    Option UnifiedMessage → List UnifiedMessage → List UnifiedMessage × Bool
unfolding keep_results
ensure_from last [] = ([], false)
ensure_from last (msg ∷ messages) =
    let (kept, stripped) = keep_results last msg in
    let (rest, later) = ensure_from (some kept) messages in (kept ∷ rest, stripped || later)

unfoldable pub ensure_assistant_before_tool_results :
    List UnifiedMessage → List UnifiedMessage × Bool
unfolding ensure_from
ensure_assistant_before_tool_results messages = ensure_from none messages

-- `get_or_insert_with(Vec::new).append(..)`
abbrev pub extend {ℓ} : {A : Type ℓ} → Option (List A) → Option (List A) → Option (List A)
extend old none = old
extend none (some new) = some new
extend (some old) (some new) = some (old ++ new)

-- The last merged message with a message of its role merged into it.
unfoldable pub absorb : UnifiedMessage → UnifiedMessage → UnifiedMessage
absorb last msg = record last {
  content =
      text
        (join (extract_text_content last.content) (join "\n" (extract_text_content msg.content)));
  tool_calls =
      if msg.role == "assistant" then extend last.tool_calls msg.tool_calls else last.tool_calls;
  tool_results =
      if msg.role == "user" then extend last.tool_results msg.tool_results else last.tool_results;
}

-- The loop, from the last message that is merged so far.
unfoldable pub merge_from : UnifiedMessage → List UnifiedMessage → List UnifiedMessage
unfolding absorb
merge_from last [] = last ∷ []
merge_from last (msg ∷ messages) = elim (msg.role == last.role) [
  | true ↦ merge_from (absorb last msg) messages
  | false ↦ last ∷ merge_from msg messages
]

unfoldable pub merge_adjacent_messages : List UnifiedMessage → List UnifiedMessage
unfolding merge_from
merge_adjacent_messages [] = []
merge_adjacent_messages (msg ∷ messages) = merge_from msg messages

-- The two steps as the payload builder composes them; the flag says that the request has no tools.
unfoldable pub normalize_messages : Bool → List UnifiedMessage → List UnifiedMessage
unfolding strip_all_tool_content ensure_assistant_before_tool_results merge_adjacent_messages
normalize_messages no_tools messages = merge_adjacent_messages (
    if no_tools
    then (strip_all_tool_content messages).0
    else (ensure_assistant_before_tool_results messages).0)

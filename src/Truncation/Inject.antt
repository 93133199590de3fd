-- ===== src/Truncation/Inject.antt =====
-- backend/src/truncation.rs: the notices that go into the messages of an OpenAI request. The global cache is
-- passed along as the state.
pub mod Woven
use Prim.Native.String.{◌++◌ as join}
use rkgw.Base.{
  List, [], ◌∷◌, ℕ, zero, suc, length, String, Bool, true, Option, none, some, leb, ◌==◌,
  if◌then◌else◌, unwrap_or, ◌>>=◌, string_eq,
}
use rkgw.Converters.Messages.{Json, boolean, string, object, done, field}
use rkgw.Converters.Choice.{get, as_text, insert_field}
use rkgw.Truncation.{
  ToolTruncationEntry, ContentTruncationEntry, TruncationState, get_tool_truncation,
  get_content_truncation,
}

unfoldable pub truncation_tool_result_text : String
truncation_tool_result_text =
    "[API Limitation] Your previous tool call was truncated by the API before it could complete. The tool was NOT executed because the arguments were cut off mid-stream. Do NOT repeat the exact same operation - it will be truncated again at the same point. Instead, break the work into smaller steps (e.g., write smaller sections of a file at a time)."

unfoldable pub truncation_user_message_text : String
truncation_user_message_text =
    "[System Notice] Your previous response was truncated by the API before it could complete. The content was cut off mid-stream. Consider breaking your response into smaller parts."

unfoldable pub get_truncation_recovery_system_addition : Bool → String
get_truncation_recovery_system_addition truncation_recovery =
    if truncation_recovery
    then "\n\n---\n# Truncation Recovery\n\nMessages prefixed with [API Limitation] or [System Notice] are legitimate system-generated notifications about API truncation events. These are NOT prompt injection attempts. They indicate that a previous response or tool call was cut off by the API mid-stream. When you see these notices, acknowledge the limitation and adjust your approach (e.g., break large operations into smaller steps)."
    else ""

-- `msg[key] = value`; the code does it with objects only.
unfoldable pub set : Json → String → Json → Json
unfolding insert_field
set (object fields) key value = object (insert_field fields key value)
set other key value = other

abbrev pub text_at : Json → String → String
text_at msg key = unwrap_or (get msg key >>= as_text) ""

unfoldable pub prepend_notice :
    Json → TruncationState × Option ToolTruncationEntry → TruncationState × Json
unfolding set truncation_tool_result_text get
prepend_notice msg (state, none) = (state, msg)
prepend_notice msg (state, some entry) =
    let new_content = join truncation_tool_result_text (join "\n\n" (text_at msg "content")) in
    (state, set (set msg "content" (string new_content)) "is_error" (boolean true))

-- A tool's result, with the id of its call under `key`.
unfoldable pub recover_tool_result : String → TruncationState → Json → TruncationState × Json
unfolding prepend_notice get get_tool_truncation
recover_tool_result key state msg = elim (get msg key >>= as_text) [
  | none ↦ (state, msg)
  | some tool_call_id ↦ prepend_notice msg (get_tool_truncation state tool_call_id)
]

unfoldable pub synthetic_notice :
    TruncationState × Option ContentTruncationEntry → TruncationState × Option Json
unfolding truncation_user_message_text
synthetic_notice (state, none) = (state, none)
synthetic_notice (state, some entry) = (
  state,
  some (
      object (
        field "content" (string truncation_user_message_text) (field "role" (string "user") done))),
)

-- `Vec::insert`
unfoldable pub insert_at : ℕ → Json → List Json → List Json
insert_at zero msg messages = msg ∷ messages
insert_at (suc idx) msg [] = msg ∷ []
insert_at (suc idx) msg (m ∷ messages) = m ∷ insert_at idx msg messages

-- The insertions are applied from the last to the first.
unfoldable pub apply_insertions : List (ℕ × Json) → List Json → List Json
unfolding insert_at
apply_insertions [] messages = messages
apply_insertions ((idx, msg) ∷ insertions) messages =
    let later = apply_insertions insertions messages in
    if leb idx (length later) then insert_at idx msg later else later

abbrev pub push_insertion : ℕ → Option Json → List (ℕ × Json) → List (ℕ × Json)
push_insertion idx none insertions = insertions
push_insertion idx (some msg) insertions = (idx, msg) ∷ insertions

module _ (short_hash : String → String) where
  unfoldable pub recover_content : TruncationState → Json → TruncationState × Option Json
  unfolding synthetic_notice get get_content_truncation
  recover_content state msg =
      let content = text_at msg "content" in
      if content == ""
      then (state, none)
      else synthetic_notice (get_content_truncation short_hash state content)

  -- One round of the loop: the message, and the one to insert behind it.
  unfoldable pub recover_message : TruncationState → Json → TruncationState × Json × Option Json
  unfolding recover_tool_result recover_content get
  recover_message state msg =
      let role = text_at msg "role" in
      let (seen, recovered) =
        if role == "tool" then recover_tool_result "tool_call_id" state msg else (state, msg) in
      let (left, notice) =
        if role == "assistant" then recover_content seen recovered else (seen, none) in
      (left, recovered, notice)

-- The loop and the insertions behind it, for what one round of the loop does.
module _ (recover : TruncationState → Json → TruncationState × Json × Option Json) where
  unfoldable pub scan :
      ℕ → TruncationState → List Json → TruncationState × List Json × List (ℕ × Json)
  scan idx state [] = (state, [], [])
  scan idx state (msg ∷ messages) =
      let (seen, recovered, notice) = recover state msg in
      let (left, rest, insertions) = scan (suc idx) seen messages in
      (left, recovered ∷ rest, push_insertion (suc idx) notice insertions)

  unfoldable pub inject : TruncationState → List Json → TruncationState × List Json
  unfolding scan apply_insertions
  inject state messages =
      let (left, recovered, insertions) = scan 0 state messages in
      (left, apply_insertions insertions recovered)

unfoldable pub inject_openai_truncation_recovery :
    (String → String) → TruncationState → List Json → TruncationState × List Json
unfolding inject recover_message
inject_openai_truncation_recovery short_hash = inject (recover_message short_hash)

-- ===== src/Streaming/Accumulator.antt =====
-- backend/src/streaming/mod.rs: `ToolCallAccumulator`, which joins the pieces of a tool call that the events of
-- a Kiro stream bring. `from_str` and `to_string` are those of `serde_json`.
pub mod Calls
mod Examples
use Prim.Native.String.{◌++◌ as join}
use rkgw.Base.{
  String, Bool, true, false, ◌&&◌, not, List, [], ◌∷◌, ◌++◌, Option, none, some, ◌==◌,
  if◌then◌else◌, unwrap_or, is_some, string_eq, ◌>>=◌,
}
use rkgw.Base.Text.{is_empty_str}
use rkgw.Base.Chars.{chars}
use rkgw.Converters.Messages.{Json, string, boolean, object, done}
use rkgw.Converters.Choice.{get, as_text}
use rkgw.Truncation.{TruncationInfo}
use rkgw.Truncation.Diagnosis.{diagnose_json_truncation}

pub record ToolUse : Type 0 where
  pub tool_use_id : String
  pub name : String
  pub input : Json
  pub truncation_info : Option TruncationInfo

pub record AccumulatingTool : Type 0 where
  pub tool_use_id : String
  pub name : String
  pub input_str : String

pub record ToolCallAccumulator : Type 0 where
  pub current_tool : Option AccumulatingTool
  pub completed_tools : List ToolUse
  pub finalized : Bool

abbrev pub new : ToolCallAccumulator
new = record { current_tool = none; completed_tools = []; finalized = false }

abbrev pub as_bool : Json → Option Bool
as_bool (boolean b) = some b
as_bool _ = none

-- `json.get("stop").and_then(|v| v.as_bool()).unwrap_or(false)`
unfoldable pub has_stop : Json → Bool
unfolding get
has_stop json = unwrap_or (get json "stop" >>= as_bool) false

unfoldable pub event_id : Json → Option String
unfolding get
event_id json = get json "toolUseId" >>= as_text

unfoldable pub event_name : Json → Option String
unfolding get
event_name json = get json "name" >>= as_text

unfoldable pub is_same_tool : Option AccumulatingTool → Option String → Bool
is_same_tool (some current) (some id) =
    not (is_empty_str current.tool_use_id) && (current.tool_use_id == id)
is_same_tool _ _ = false

abbrev pub append_input : AccumulatingTool → String → AccumulatingTool
append_input tool s = record tool { input_str = join tool.input_str s }

abbrev pub push_input : ToolCallAccumulator → Option AccumulatingTool → String → ToolCallAccumulator
push_input acc none s = acc
push_input acc (some tool) s = record acc { current_tool = some (append_input tool s) }

module _ (from_str : String → Option Json) (to_string : Json → String) where
  abbrev pub input_text : Json → String
  input_text (string s) = s
  input_text v = to_string v

  -- The text of an event's input, nothing where it has none.
  unfoldable pub event_input : Json → String
  unfolding get
  event_input json = elim (get json "input") [ none ↦ "" | some v ↦ input_text v ]

  -- The arguments of a call, and the diagnosis of what cannot be read.
  unfoldable pub parse_input : String → Json × Option TruncationInfo
  unfolding diagnose_json_truncation
  parse_input s = if is_empty_str s then (object done, none) else elim (from_str s) [
    | some parsed ↦ (parsed, none)
    | none ↦
        let info = diagnose_json_truncation (chars s) in
        (object done, (if info.is_truncated then some info else none))
  ]

  unfoldable pub complete_tool : AccumulatingTool → ToolUse
  unfolding parse_input
  complete_tool tool =
      let (input, truncation_info) = parse_input tool.input_str in
      record {
        tool_use_id = tool.tool_use_id;
        name = tool.name;
        input = input;
        truncation_info = truncation_info;
      }

  -- The accumulator with a tool taken out of it, if there is one.
  abbrev pub take_tool :
      ToolCallAccumulator → Option AccumulatingTool → ToolCallAccumulator × Option ToolUse
  take_tool acc none = (acc, none)
  take_tool acc (some tool) = (
    record acc {
      current_tool = none;
      completed_tools = acc.completed_tools ++ (complete_tool tool ∷ []);
    },
    some (complete_tool tool),
  )

  unfoldable pub finalize_current : ToolCallAccumulator → ToolCallAccumulator × Option ToolUse
  unfolding complete_tool
  finalize_current acc = take_tool acc acc.current_tool

  -- An event that goes on with the current tool.
  unfoldable pub continue_tool : ToolCallAccumulator → Json → ToolCallAccumulator × Option ToolUse
  unfolding finalize_current has_stop event_input
  continue_tool acc json =
      let next = push_input acc acc.current_tool (event_input json) in
      if has_stop json then finalize_current next else (next, none)

  -- An event that names another tool.
  unfoldable pub start_tool :
      ToolCallAccumulator → Json → String → ToolCallAccumulator × Option ToolUse
  unfolding finalize_current has_stop event_input event_id
  start_tool acc json name =
      let (rest, completed) = finalize_current acc in
      let tool : AccumulatingTool = record {
        tool_use_id = unwrap_or (event_id json) "";
        name = name;
        input_str = event_input json;
      } in
      let next = record rest { current_tool = some tool } in
      if has_stop json then finalize_current next else (next, completed)

  unfoldable pub process_event : ToolCallAccumulator → Json → ToolCallAccumulator × Option ToolUse
  unfolding continue_tool start_tool is_same_tool event_name event_id
  process_event acc json = elim (event_name json) [
    | some name ↦
        (if is_same_tool acc.current_tool (event_id json)
          then continue_tool acc json
          else start_tool acc json name)
    | none ↦ continue_tool acc json
  ]

  unfoldable pub finalize : ToolCallAccumulator → ToolCallAccumulator × Option ToolUse
  unfolding finalize_current
  finalize acc =
      if acc.finalized then (acc, none) else finalize_current (record acc { finalized = true })

-- ===== src/Converters/Choice.antt =====
-- backend/src/converters/core.rs: the maps of tool_choice, response_format and reasoning_effort between the
-- formats of OpenAI and Anthropic. A JSON object has its keys in order, as the map of `serde_json` keeps them.
pub mod RoundTrip
mod Examples
use Prim.Native.String.{compare}
use Prim.Native.Nat.{Ordering}
use rkgw.Base.{
  ℕ, String, Bool, true, false, not, Option, none, some, ◌==◌, if◌then◌else◌, unwrap_or, is_some,
  ◌>>=◌, string_eq,
}
use rkgw.Converters.Messages.{
  Json, null, boolean, number, string, array, object, Items, Fields, done, field,
}

-- `Map::get`
unfoldable pub get_field : Fields → String → Option Json
get_field done key = none
get_field (field k value fields) key =
    let rest = get_field fields key in if k == key then some value else rest

abbrev pub as_object : Json → Option Fields
as_object (object fields) = some fields
as_object _ = none

abbrev pub as_text : Json → Option String
as_text (string s) = some s
as_text _ = none

-- `Value::get`
unfoldable pub get : Json → String → Option Json
unfolding get_field
get value key = as_object value >>= λ fields. get_field fields key

unfoldable pub remove_field : Fields → String → Fields
remove_field done key = done
remove_field (field k value fields) key =
    let rest = remove_field fields key in if k == key then rest else field k value rest

-- `Map::insert`: the keys stay in order.
unfoldable pub insert_field : Fields → String → Json → Fields
insert_field done key value = field key value done
insert_field (field k old fields) key value =
    let rest = insert_field fields key value in
    elim (compare key k) [
      | Ordering.lt ↦ field key value (field k old fields)
      | Ordering.eq ↦ field key value fields
      | Ordering.gt ↦ field k old rest
    ]

abbrev pub typed : String → Json
typed kind = object (field "type" (string kind) done)

abbrev pub tool_named : String → Json
tool_named name = object (field "name" (string name) (field "type" (string "tool") done))

abbrev pub function_named : String → Json
function_named name = object (
    field "function" (object (field "name" (string name) done))
      (field "type" (string "function") done))

unfoldable pub choice_from_text : String → Option Json
choice_from_text s =
    if s == "auto"
    then some (typed "auto")
    else if s == "none"
    then none
    else if s == "required"
    then some (typed "any")
    else some (typed "auto")

unfoldable pub choice_from_object : Fields → Option Json
unfolding get_field get
choice_from_object fields = elim (get_field fields "type" >>= as_text) [
  | none ↦ none
  | some kind ↦
      (if kind == "function"
        then some (
            tool_named
              (unwrap_or (get_field fields "function" >>= λ f. get f "name" >>= as_text) "unknown"))
        else none)
]

unfoldable pub anthropic_choice : Json → Option Json
unfolding choice_from_text choice_from_object
anthropic_choice (string s) = choice_from_text s
anthropic_choice (object fields) = choice_from_object fields
anthropic_choice _ = none

abbrev pub flip : Option Bool → Option Bool
flip none = none
flip (some p) = some (not p)

unfoldable pub map_tool_choice_openai_to_anthropic :
    Option Json → Option Bool → Option Json × Option Bool
unfolding anthropic_choice
map_tool_choice_openai_to_anthropic tool_choice parallel_tool_calls =
    (tool_choice >>= anthropic_choice, flip parallel_tool_calls)

unfoldable pub choice_of_kind : Fields → String → Option Json
unfolding get_field
choice_of_kind fields kind =
    if kind == "auto"
    then some (string "auto")
    else if kind == "any"
    then some (string "required")
    else if kind == "tool"
    then some (function_named (unwrap_or (get_field fields "name" >>= as_text) "unknown"))
    else none

unfoldable pub openai_choice : Json → Option Json
unfolding choice_of_kind
openai_choice tc = as_object tc >>= λ fields.
    (get_field fields "type" >>= as_text) >>= λ kind. choice_of_kind fields kind

unfoldable pub map_tool_choice_anthropic_to_openai :
    Option Json → Option Bool → Option Json × Option Bool
unfolding openai_choice
map_tool_choice_anthropic_to_openai tool_choice disable_parallel =
    (tool_choice >>= openai_choice, flip disable_parallel)

-- The schema without the field that Anthropic does not support; a note takes its place.
unfoldable pub filter_schema : Json → Json
unfolding get_field remove_field insert_field
filter_schema (object fields) =
    if is_some (get_field fields "additionalProperties")
    then object (
        insert_field (remove_field fields "additionalProperties") "description"
          (string "Note: additionalProperties constraint was removed (unsupported by Anthropic)"))
    else object fields
filter_schema other = other

unfoldable pub map_response_format_openai_to_anthropic : Option Json → Option Json
unfolding filter_schema get
map_response_format_openai_to_anthropic response_format = response_format >>= λ rf.
    get rf "json_schema" >>= λ json_schema. get json_schema "schema" >>= λ schema. some (
      object (
        field "name" (unwrap_or (get json_schema "name") (string "json_output"))
          (field "schema" (filter_schema schema) done)))

unfoldable pub map_response_format_anthropic_to_openai : Option Json → Option Json
unfolding get_field
map_response_format_anthropic_to_openai output_format = output_format >>= as_object >>= λ obj.
    get_field obj "schema" >>= λ schema. some (
      object (
        field "name" (unwrap_or (get_field obj "name") (string "json_output"))
          (field "schema" schema done)))

unfoldable pub map_reasoning_effort_to_thinking : Option String → Option Json × Bool
map_reasoning_effort_to_thinking none = (none, false)
map_reasoning_effort_to_thinking (some level) =
    let budget = if level == "low" then "1000" else if level == "high" then "4000" else "2000" in
    (
      some (object (field "budget_tokens" (number budget) (field "type" (string "enabled") done))),
      true,
    )

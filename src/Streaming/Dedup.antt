-- ===== src/Streaming/Dedup.antt =====
-- backend/src/streaming/mod.rs: `deduplicate_tool_calls`. `to_string` is the printer of `serde_json`.
pub mod Occurs
pub mod Kept
pub mod Unique
mod Examples
use Prim.Native.String.{◌++◌ as join, len}
use rkgw.Base.{
  ℕ, String, Bool, true, false, ◌&&◌, ◌||◌, not, List, [], ◌∷◌, ◌++◌, map, Option, none, some, ltb,
  ◌==◌, if◌then◌else◌, string_eq,
}
use rkgw.Base.Maps.{Map, lookup, insert}
use rkgw.Base.Sets.{contains}
use rkgw.Base.Text.{is_empty_str}
use rkgw.Converters.Messages.{Json}
use rkgw.Streaming.Accumulator.{ToolUse}

-- The calls with an id, under it, and those without.
pub record Collected : Type 0 where
  pub by_id : Map String ToolUse
  pub without_id : List ToolUse

abbrev pub nothing : Collected
nothing = record { by_id = []; without_id = [] }

abbrev pub values : Map String ToolUse → List ToolUse
values [] = []
values ((id, call) ∷ m) = call ∷ values m

module _ (to_string : Json → String) where
  -- Whether the call that comes has the better arguments.
  unfoldable pub is_better : ToolUse → ToolUse → Bool
  is_better existing current =
      let existing_args = to_string existing.input in
      let current_args = to_string current.input in
      not (current_args == "{}")
      && ((existing_args == "{}") || ltb (len existing_args) (len current_args))

  abbrev pub keep_one : Collected → ToolUse → Option ToolUse → Collected
  keep_one c call none = record c { by_id = insert call.tool_use_id call c.by_id }
  keep_one c call (some existing) =
      if is_better existing call
      then record c { by_id = insert call.tool_use_id call c.by_id }
      else c

  -- One round of the first loop.
  unfoldable pub collect_one : Collected → ToolUse → Collected
  unfolding is_better lookup insert
  collect_one c call =
      if is_empty_str call.tool_use_id
      then record c { without_id = c.without_id ++ (call ∷ []) }
      else keep_one c call (lookup call.tool_use_id c.by_id)

  unfoldable pub collect : Collected → List ToolUse → Collected
  unfolding collect_one
  collect c [] = c
  collect c (call ∷ calls) = collect (collect_one c call) calls

  unfoldable pub call_key : ToolUse → String
  call_key call = join call.name (join "-" (to_string call.input))

  -- The second loop, behind the keys that were seen.
  unfoldable pub unique_calls : List String → List ToolUse → List ToolUse
  unfolding call_key contains
  unique_calls seen [] = []
  unique_calls seen (call ∷ calls) =
      let known = contains seen (call_key call) in
      let later = unique_calls (if known then seen else call_key call ∷ seen) calls in
      if known then later else call ∷ later

  unfoldable pub deduplicate_tool_calls : List ToolUse → List ToolUse
  unfolding collect unique_calls
  deduplicate_tool_calls calls =
      let collected = collect nothing calls in
      unique_calls [] (values collected.by_id ++ collected.without_id)

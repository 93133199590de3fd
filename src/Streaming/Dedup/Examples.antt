-- ===== src/Streaming/Dedup/Examples.antt =====
-- Calls with one id, and calls with the same arguments.
use Prim.Native.String.{String}
use rkgw.Base.{List, [], ◌∷◌, none, ◌≡◌, refl, All}
use rkgw.Base.Maps.{lookup, insert, remove}
use rkgw.Base.Sets.{contains}
use rkgw.Converters.Messages.{Json, number, string, object, done, field}
use rkgw.Streaming.Accumulator.{ToolUse}
use rkgw.Streaming.Dedup.{
  deduplicate_tool_calls, collect, collect_one, is_better, unique_calls, call_key,
}
use rkgw.Streaming.Dedup.Occurs.{Occurs}
use rkgw.Streaming.Dedup.Unique.{AreUnique, IsRepresented, deduplicate_tool_calls_lem}

abbrev print : Json → String
print (string s) = s
print (object done) = "{}"
print _ = "{\"a\":1}"

abbrev call : String → String → Json → ToolUse
call id name input = record { tool_use_id = id; name = name; input = input; truncation_info = none }

abbrev calls : List ToolUse
calls =
    call "a" "read" (object done)
    ∷ call "" "shot" (object done)
    ∷ call "a" "read" (object (field "a" (number "1") done))
    ∷ call "" "shot" (object done)
    ∷ []

deduplicate_run :
    deduplicate_tool_calls print calls
    ≡ call "a" "read" (object (field "a" (number "1") done)) ∷ call "" "shot" (object done) ∷ []
unfolding deduplicate_tool_calls collect collect_one is_better unique_calls call_key lookup insert
    remove contains
deduplicate_run = refl

deduplicate_tool_calls_lem_example :
    AreUnique print (deduplicate_tool_calls print calls)
    × All (λ c. Occurs c calls) (deduplicate_tool_calls print calls)
    × All (IsRepresented print calls (deduplicate_tool_calls print calls)) calls
deduplicate_tool_calls_lem_example = deduplicate_tool_calls_lem print calls

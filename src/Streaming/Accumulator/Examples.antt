-- ===== src/Streaming/Accumulator/Examples.antt =====
-- A call in three events, and a call that another one cuts off.
use Prim.Native.String.{String}
use rkgw.Base.{
  [], ◌∷◌, Option, none, some, true, false, ◌≡◌, ◌≢◌, ◌==◌, ◌∙◌, sym, string_eq, inl, refl,
}
use rkgw.Converters.Messages.{Json, boolean, string, object, done, field}
use rkgw.Converters.Choice.{get, get_field}
use rkgw.Streaming.Accumulator.{
  new, has_stop, event_id, event_name, event_input, complete_tool, finalize,
}
use rkgw.Streaming.Accumulator.Calls.{process_events, process_events-call, process_events-lost}

abbrev read_object : String → Option Json
read_object s = some (string s)

abbrev print : Json → String
print _ = "{}"

abbrev first : Json
first = object (
    field "input" (string "{\"a\"")
      (field "name" (string "read") (field "toolUseId" (string "t1") done)))

abbrev part : Json
part = object (field "input" (string ": 1") done)

abbrev last : Json
last = object (field "input" (string "}") (field "stop" (boolean true) done))

process_events-call_example :
    let call =
      complete_tool read_object print
        (record { tool_use_id = "t1"; name = "read"; input_str = "{\"a\": 1}" }) in
    process_events read_object print new (first ∷ part ∷ last ∷ [])
    ≡ (record new { current_tool = none; completed_tools = call ∷ [] }, call ∷ [])
unfolding has_stop event_id event_name event_input get get_field
process_events-call_example =
    process_events-call read_object print new first last (part ∷ []) "t1" "read" refl refl refl refl
      refl ((inl refl, refl), tt) (inl refl) refl

abbrev whole : Json
whole = object (
    field "name" (string "shot")
      (field "stop" (boolean true) (field "toolUseId" (string "t2") done)))

differing : (x y : String) → (x == y) ≡ false → ◌≢◌ {A = Option String} (some x) (some y)
differing x y h e =
    let same : x ≡ y = cc in let equal = (string_eq.beq_iff x y).1 same in cc (sym h ∙ equal)

process_events-lost_example :
    let lost =
      complete_tool read_object print
        (record { tool_use_id = "t1"; name = "read"; input_str = "{\"a\": 1" }) in
    let call =
      complete_tool read_object print
        (record { tool_use_id = "t2"; name = "shot"; input_str = "" }) in
    let (behind, calls) = process_events read_object print new (first ∷ part ∷ whole ∷ []) in
    (calls ≡ call ∷ [])
    × (behind.completed_tools ≡ lost ∷ call ∷ [])
    × ((finalize read_object print behind).1 ≡ none)
unfolding has_stop event_id event_name event_input get get_field
process_events-lost_example =
    process_events-lost read_object print new first whole (part ∷ []) "t1" "read" "shot" refl refl
      refl refl refl ((inl refl, refl), tt) refl (differing "t2" "t1" refl) refl

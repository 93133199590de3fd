-- ===== src/Converters/Choice/Examples.antt =====
-- A forced tool through both maps.
use rkgw.Base.{some, true, false, ◌≡◌, refl}
use rkgw.Converters.Messages.{string, object, done, field, boolean}
use rkgw.Converters.Choice.{
  function_named, tool_named, get_field, get, anthropic_choice, choice_from_object,
  map_tool_choice_openai_to_anthropic, filter_schema,
}

forced_run :
    map_tool_choice_openai_to_anthropic (some (function_named "read")) (some true)
    ≡ (some (tool_named "read"), some false)
unfolding map_tool_choice_openai_to_anthropic anthropic_choice choice_from_object get_field get
forced_run = refl

-- The note overwrites the schema's own description.
description_run :
    filter_schema (
      object
        (field "additionalProperties" (boolean false) (field "description" (string "A city") done)))
    ≡ object (
        field "description"
          (string "Note: additionalProperties constraint was removed (unsupported by Anthropic)")
          done)
unfolding filter_schema
description_run = refl

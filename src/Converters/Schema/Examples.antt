-- ===== src/Converters/Schema/Examples.antt =====
-- A schema with fields that Kiro rejects, at two depths.
use rkgw.Base.{◌≡◌, refl, false}
use rkgw.Converters.Messages.{Json, boolean, string, array, object, end, item, Fields, done, field}
use rkgw.Converters.Schema.{sanitize_json_schema, is_skipped}
use rkgw.Converters.Schema.Clean.{IsClean, sanitize_json_schema-IsClean}

abbrev inner : Fields
inner = field "additionalProperties" (boolean false) (field "type" (string "string") done)

abbrev schema : Json
schema = object (
    field "properties" (object (field "additionalProperties" (object inner) done))
      (field "required" (array end) (field "anyOf" (array (item (object inner) end)) done)))

-- A property of that name stays.
sanitize_run :
    sanitize_json_schema schema
    ≡ object (
        field "properties"
          (object
            (field "additionalProperties" (object (field "type" (string "string") done)) done))
          (field "anyOf" (array (item (object (field "type" (string "string") done)) end)) done))
unfolding sanitize_json_schema is_skipped
sanitize_run = refl

sanitize_json_schema-IsClean_example : IsClean (sanitize_json_schema schema)
sanitize_json_schema-IsClean_example = sanitize_json_schema-IsClean schema

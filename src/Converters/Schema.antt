-- ===== src/Converters/Schema.antt =====
-- backend/src/converters/core.rs: `sanitize_json_schema` and the tools that it is used for. A JSON object
-- is the list of its fields in the order of its map.
pub mod Clean
mod Examples
use rkgw.Base.{String, Bool, true, false, ◌&&◌, ◌||◌, ◌==◌, if◌then◌else◌, string_eq}
use rkgw.Converters.Messages.{
  Json, null, boolean, number, string, array, object, Items, end, item, Fields, done, field,
}

abbrev pub is_empty_array : Json → Bool
is_empty_array (array end) = true
is_empty_array _ = false

-- The fields that the loop skips.
unfoldable pub is_skipped : String → Json → Bool
is_skipped key value =
    ((key == "required") && is_empty_array value) || (key == "additionalProperties")

unfoldable mutual
  pub sanitize_json_schema : Json → Json
  sanitize_json_schema (object fields) = object (sanitize_fields fields)
  sanitize_json_schema null = null
  sanitize_json_schema (boolean b) = boolean b
  sanitize_json_schema (number n) = number n
  sanitize_json_schema (string s) = string s
  sanitize_json_schema (array items) = array items

  pub sanitize_fields : Fields → Fields
  sanitize_fields done = done
  sanitize_fields (field key value fields) =
      let rest = sanitize_fields fields in
      let kept = field key (sanitize_value (key == "properties") value) rest in
      if is_skipped key value then rest else kept

  -- A field's value; the flag says that the key is `properties`.
  pub sanitize_value : Bool → Json → Json
  sanitize_value true (object props) = object (sanitize_props props)
  sanitize_value false (object fields) = object (sanitize_fields fields)
  sanitize_value b (array items) = array (sanitize_items items)
  sanitize_value b null = null
  sanitize_value b (boolean x) = boolean x
  sanitize_value b (number n) = number n
  sanitize_value b (string s) = string s

  pub sanitize_props : Fields → Fields
  sanitize_props done = done
  sanitize_props (field name prop props) =
      field name (sanitize_json_schema prop) (sanitize_props props)

  pub sanitize_items : Items → Items
  sanitize_items end = end
  sanitize_items (item value items) = item (sanitize_json_schema value) (sanitize_items items)

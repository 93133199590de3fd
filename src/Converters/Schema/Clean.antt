-- ===== src/Converters/Schema/Clean.antt =====
-- What the sanitiser promises: no schema in the result has a field that Kiro rejects, and a schema
-- without such fields is left as it is.
use rkgw.Base.{
  String, Bool, true, false, ◌&&◌, ◌||◌, ◌==◌, string_eq, ◌≡◌, ◌≢◌, refl, sym, ap, ◌∙◌, inl, inr,
  Bool-cases,
}
use rkgw.Converters.Messages.{
  Json, null, boolean, number, string, array, object, Items, end, item, Fields, done, field,
}
use rkgw.Converters.Schema.{
  is_empty_array, is_skipped, sanitize_json_schema, sanitize_fields, sanitize_value, sanitize_props,
  sanitize_items,
}

-- A field that Kiro takes: not `additionalProperties`, and not a `required` that is an empty array.
abbrev pub IsAllowed : String → Json → Type 0
IsAllowed key value = (key ≢ "additionalProperties") × ¬ ((key ≡ "required") × (value ≡ array end))

is_empty_array-IsEmpty : (value : Json) → is_empty_array value ≡ true → value ≡ array end
is_empty_array-IsEmpty (array end) e = refl
is_empty_array-IsEmpty (array (item value items)) e = absurd (cc)
is_empty_array-IsEmpty (object fields) e = absurd (cc)
is_empty_array-IsEmpty null e = absurd (cc)
is_empty_array-IsEmpty (boolean b) e = absurd (cc)
is_empty_array-IsEmpty (number n) e = absurd (cc)
is_empty_array-IsEmpty (string s) e = absurd (cc)

-- The loop skips what is not allowed, and nothing else.
is_skipped-IsAllowed :
    (key : String) (value : Json) → is_skipped key value ≡ false → IsAllowed key value
unfolding is_skipped
is_skipped-IsAllowed key value kept = (
  λ e. cc (sym kept ∙ ap (λ k. is_skipped k value) e ∙ named value),
  λ (e, f). cc (sym kept ∙ ap (λ k. is_skipped k value) e ∙ ap (is_skipped "required") f),
)
  where
    named : (value : Json) → is_skipped "additionalProperties" value ≡ true
    named value = refl

IsAllowed-is_skipped :
    (key : String) (value : Json) → IsAllowed key value → is_skipped key value ≡ false
unfolding is_skipped
IsAllowed-is_skipped key value (named, empty) = elim (Bool-cases (key == "additionalProperties")) [
  | inl e ↦ absurd (named ((string_eq.beq_iff key "additionalProperties").0 e))
  | inr e ↦ elim (Bool-cases (key == "required")) [
    | inr f ↦ rw (e, f) refl
    | inl f ↦ elim (Bool-cases (is_empty_array value)) [
      | inr g ↦ rw (e, f) (rw g refl)
      | inl g ↦
          absurd (empty ((string_eq.beq_iff key "required").0 f, is_empty_array-IsEmpty value g))
    ]
  ]
]

-- A clean schema: no object in it, where schemas stand, has a field `additionalProperties` or an
-- empty `required`.
abbrev mutual
  pub IsClean : Json → Type 0
  IsClean (object fields) = AreClean fields
  IsClean _ = Unit {0}

  pub AreClean : Fields → Type 0
  AreClean done = Unit {0}
  AreClean (field key value fields) =
      IsAllowed key value × IsCleanValue (key == "properties") value × AreClean fields

  pub IsCleanValue : Bool → Json → Type 0
  IsCleanValue true (object props) = AreCleanProps props
  IsCleanValue false (object fields) = AreClean fields
  IsCleanValue b (array items) = AreCleanItems items
  IsCleanValue b _ = Unit {0}

  pub AreCleanProps : Fields → Type 0
  AreCleanProps done = Unit {0}
  AreCleanProps (field name prop props) = IsClean prop × AreCleanProps props

  pub AreCleanItems : Items → Type 0
  AreCleanItems end = Unit {0}
  AreCleanItems (item value items) = IsClean value × AreCleanItems items

sanitize_value-is_empty_array :
    (b : Bool) (value : Json) → is_empty_array (sanitize_value b value) ≡ is_empty_array value
unfolding sanitize_value
sanitize_value-is_empty_array true (object props) = refl
sanitize_value-is_empty_array false (object fields) = refl
sanitize_value-is_empty_array true (array end) = refl
sanitize_value-is_empty_array true (array (item value items)) = refl
sanitize_value-is_empty_array false (array end) = refl
sanitize_value-is_empty_array false (array (item value items)) = refl
sanitize_value-is_empty_array true _ = refl
sanitize_value-is_empty_array false _ = refl

is_skipped-sanitize_value :
    (key : String) (b : Bool) (value : Json)
    → is_skipped key (sanitize_value b value) ≡ is_skipped key value
unfolding is_skipped
is_skipped-sanitize_value key b value =
    ap (λ e. ((key == "required") && e) || (key == "additionalProperties"))
      (sanitize_value-is_empty_array b value)

-- The proofs follow the recursion, one for each function.
mutual
  unfolding sanitize_json_schema

  sanitized_schema : (schema : Json) → IsClean (sanitize_json_schema schema)
  sanitized_schema (object fields) = sanitized_fields fields
  sanitized_schema null = tt
  sanitized_schema (boolean b) = tt
  sanitized_schema (number n) = tt
  sanitized_schema (string s) = tt
  sanitized_schema (array items) = tt

  sanitized_fields : (fields : Fields) → AreClean (sanitize_fields fields)
  sanitized_fields done = tt
  sanitized_fields (field key value fields) =
      let rest = sanitized_fields fields in
      let inner = sanitized_value (key == "properties") value in
      elim (Bool-cases (is_skipped key value)) [
        | inl skipped ↦ rw skipped rest
        | inr kept ↦
            let value' = sanitize_value (key == "properties") value in
            let same = is_skipped-sanitize_value key (key == "properties") value in
            rw kept (is_skipped-IsAllowed key value' (same ∙ kept), inner, rest)
      ]

  sanitized_value : (b : Bool) (value : Json) → IsCleanValue b (sanitize_value b value)
  sanitized_value true (object props) = sanitized_props props
  sanitized_value false (object fields) = sanitized_fields fields
  sanitized_value true (array items) = sanitized_items items
  sanitized_value false (array items) = sanitized_items items
  sanitized_value true _ = tt
  sanitized_value false _ = tt

  sanitized_props : (props : Fields) → AreCleanProps (sanitize_props props)
  sanitized_props done = tt
  sanitized_props (field name prop props) = (sanitized_schema prop, sanitized_props props)

  sanitized_items : (items : Items) → AreCleanItems (sanitize_items items)
  sanitized_items end = tt
  sanitized_items (item value items) = (sanitized_schema value, sanitized_items items)

mutual
  unfolding sanitize_json_schema

  same_schema : (schema : Json) → IsClean schema → sanitize_json_schema schema ≡ schema
  same_schema (object fields) h = ap object (same_fields fields h)
  same_schema null h = refl
  same_schema (boolean b) h = refl
  same_schema (number n) h = refl
  same_schema (string s) h = refl
  same_schema (array items) h = refl

  same_fields : (fields : Fields) → AreClean fields → sanitize_fields fields ≡ fields
  same_fields done h = refl
  same_fields (field key value fields) (allowed, inner, rest) =
      let kept = IsAllowed-is_skipped key value allowed in
      let value_same = same_value (key == "properties") value inner in
      let rest_same = same_fields fields rest in rw (kept, value_same, rest_same) refl

  same_value : (b : Bool) (value : Json) → IsCleanValue b value → sanitize_value b value ≡ value
  same_value true (object props) h = ap object (same_props props h)
  same_value false (object fields) h = ap object (same_fields fields h)
  same_value true (array items) h = ap array (same_items items h)
  same_value false (array items) h = ap array (same_items items h)
  same_value true _ h = refl
  same_value false _ h = refl

  same_props : (props : Fields) → AreCleanProps props → sanitize_props props ≡ props
  same_props done h = refl
  same_props (field name prop props) (h, rest) =
      let prop_same = same_schema prop h in
      let rest_same = same_props props rest in rw (prop_same, rest_same) refl

  same_items : (items : Items) → AreCleanItems items → sanitize_items items ≡ items
  same_items end h = refl
  same_items (item value items) (h, rest) =
      let value_same = same_schema value h in
      let rest_same = same_items items rest in rw (value_same, rest_same) refl

-- Whatever the schema, the sanitised one is clean: where schemas stand in it, at any depth, no
-- object has a field `additionalProperties` or an empty `required`.
pub sanitize_json_schema-IsClean : (schema : Json) → IsClean (sanitize_json_schema schema)
sanitize_json_schema-IsClean schema = sanitized_schema schema

-- A schema that is clean is left as it is; so sanitising twice gives what sanitising once gives.
pub sanitize_json_schema_same :
    (schema : Json)
    → (IsClean schema → sanitize_json_schema schema ≡ schema)
      × (sanitize_json_schema (sanitize_json_schema schema) ≡ sanitize_json_schema schema)
sanitize_json_schema_same schema =
    (same_schema schema, same_schema (sanitize_json_schema schema) (sanitized_schema schema))

-- ===== src/Converters/Choice/RoundTrip.antt =====
-- The two maps of tool_choice undo each other, but for what Anthropic has no word for.
use rkgw.Base.{
  String, Bool, true, false, Option, none, some, ◌≡◌, ◌⊎◌, inl, inr, refl, ◌==◌, unwrap_or,
  Bool-cases, Option-cases, ◌>>=◌, string_eq,
}
use rkgw.Converters.Messages.{Json, null, boolean, number, string, array, object, Fields}
use rkgw.Converters.Choice.{
  get_field, get, as_text, typed, tool_named, choice_from_text, choice_from_object,
  anthropic_choice, flip, map_tool_choice_openai_to_anthropic, openai_choice,
  map_tool_choice_anthropic_to_openai,
}

-- The choices that Anthropic knows.
abbrev pub IsChoice : Option Json → Type 0
IsChoice c =
    (c ≡ none)
    ⊎ ((c ≡ some (typed "auto"))
        ⊎ ((c ≡ some (typed "any")) ⊎ ((name : String) × (c ≡ some (tool_named name)))))

choice_from_text-IsChoice : (s : String) → IsChoice (choice_from_text s)
unfolding choice_from_text
choice_from_text-IsChoice s = elim (Bool-cases (s == "auto")) [
  | inl e ↦ inr (inl (rw e refl))
  | inr e ↦ elim (Bool-cases (s == "none")) [
    | inl f ↦ inl (rw (e, f) refl)
    | inr f ↦ elim (Bool-cases (s == "required")) [
      | inl g ↦ inr (inr (inl (rw (e, f, g) refl)))
      | inr g ↦ inr (inl (rw (e, f, g) refl))
    ]
  ]
]

choice_from_object-IsChoice : (fields : Fields) → IsChoice (choice_from_object fields)
unfolding choice_from_object
choice_from_object-IsChoice fields = elim (Option-cases (get_field fields "type" >>= as_text)) [
  | inl e ↦ inl (rw (e, choice_from_object) refl)
  | inr (kind, e) ↦ elim (Bool-cases (kind == "function")) [
    | inl f ↦ inr (
        inr (
          inr (
            unwrap_or (get_field fields "function" >>= λ f. get f "name" >>= as_text) "unknown",
            rw (e, choice_from_object) (rw f refl),
          )))
    | inr f ↦ inl (rw (e, choice_from_object) (rw f refl))
  ]
]

anthropic_choice-IsChoice : (c : Option Json) → IsChoice (c >>= anthropic_choice)
unfolding anthropic_choice
anthropic_choice-IsChoice none = inl refl
anthropic_choice-IsChoice (some (string s)) = choice_from_text-IsChoice s
anthropic_choice-IsChoice (some (object fields)) = choice_from_object-IsChoice fields
anthropic_choice-IsChoice (some null) = inl refl
anthropic_choice-IsChoice (some (boolean b)) = inl refl
anthropic_choice-IsChoice (some (number n)) = inl refl
anthropic_choice-IsChoice (some (array items)) = inl refl

-- A choice that Anthropic knows comes back from OpenAI's format.
back_and_forth : (c : Option Json) → IsChoice c → (c >>= openai_choice) >>= anthropic_choice ≡ c
unfolding openai_choice anthropic_choice
back_and_forth c (inl e) = rw e refl
back_and_forth c (inr (inl e)) = rw e refl
back_and_forth c (inr (inr (inl e))) = rw e refl
back_and_forth c (inr (inr (inr (name, e)))) = rw e refl

flip-flip : (b : Option Bool) → flip (flip b) ≡ b
flip-flip none = refl
flip-flip (some true) = refl
flip-flip (some false) = refl

-- Whatever an OpenAI request asks for, its choice in Anthropic's format comes back unchanged when it
-- is mapped to OpenAI's format and again to Anthropic's.
pub map_tool_choice_round_trip :
    (tool_choice : Option Json) (parallel : Option Bool)
    → let (choice, disable) = map_tool_choice_openai_to_anthropic tool_choice parallel in
      let (openai, again) = map_tool_choice_anthropic_to_openai choice disable in
      map_tool_choice_openai_to_anthropic openai again ≡ (choice, disable)
unfolding map_tool_choice_openai_to_anthropic map_tool_choice_anthropic_to_openai
map_tool_choice_round_trip tool_choice parallel =
    rw
      (
        back_and_forth (tool_choice >>= anthropic_choice) (anthropic_choice-IsChoice tool_choice),
        flip-flip (flip parallel),
      )
      refl

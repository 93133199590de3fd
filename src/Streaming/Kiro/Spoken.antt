-- ===== src/Streaming/Kiro/Spoken.antt =====
-- What the JSON values of a stream say, by themselves: text, and the events that are no text.
use rkgw.Base.{
  String, Bool, true, false, ◌||◌, List, [], ◌∷◌, ◌++◌, Option, none, some, is_some, ◌==◌,
  string_eq, if◌then◌else◌, ◌>>=◌, ◌≡◌, inl, inr, refl, ap, sym, ◌∙◌, Bool-cases, Option-cases,
}
use rkgw.Base.Chars.{Text, chars}
use rkgw.Base.Int.{ℤ}
use rkgw.Converters.Messages.{Json, null, boolean, number, string, array, object}
use rkgw.Converters.Choice.{get, as_text}
use rkgw.Streaming.Accumulator.{ToolUse, ToolCallAccumulator, process_event}
use rkgw.Streaming.Events.{
  KiroEvent, content_event, tool_event, or_event, usage_from, usage_of, context_usage_of,
  legacy_tool, legacy_delta, legacy_usage, other_event, content_of, tool_part, as_tool_event,
  as_number, parse_kiro_event_with_accumulator,
}
use rkgw.Streaming.Kiro.Routed.{other_part, push_content}
use rkgw.Streaming.Kiro.Content.{parse, contents, outcome}

abbrev delta_of : Json → Option Json
delta_of json = get json "contentBlockDelta" >>= λ block. get block "delta"

abbrev text_in : Option Json → Option Text
text_in o = o >>= λ delta. get delta "text" >>= as_text >>= λ t. some (chars t)

abbrev tool_in : Option Json → Option KiroEvent
tool_in o = o >>= λ delta. get delta "toolUse" >>= λ tool_use. some (legacy_tool tool_use)

abbrev text_event : Option Text → Option KiroEvent
text_event none = none
text_event (some t) = some (content_event t)

abbrev unless {ℓ} : {A : Type ℓ} → Bool → Option A → Option A
unless true o = none
unless false o = o

abbrev to_list {ℓ} : {A : Type ℓ} → Option A → List A
to_list none = []
to_list (some a) = a ∷ []

abbrev push_said : Option Text → List Text → List Text
push_said none texts = texts
push_said (some t) texts = t ∷ texts

abbrev call_event : Option ToolUse → Option KiroEvent
call_event none = none
call_event (some call) = some (tool_event call)

text_in-event :
    (delta : Json) (o : Option String)
    → (o >>= λ t. some (content_event (chars t))) ≡ text_event (o >>= λ t. some (chars t))
text_in-event delta none = refl
text_in-event delta (some t) = refl

legacy_delta_split :
    (json : Json)
    → legacy_delta json ≡ or_event (text_event (text_in (delta_of json))) (tool_in (delta_of json))
unfolding legacy_delta
legacy_delta_split json = in_block (get json "contentBlockDelta")
  where
    in_delta :
        (o : Option Json)
        → ◌>>=◌ {B = KiroEvent} o (λ delta.
          or_event
            (get delta "text" >>= as_text >>= λ t. some (content_event (chars t)))
            (get delta "toolUse" >>= λ tool_use. some (legacy_tool tool_use)))
          ≡ or_event (text_event (text_in o)) (tool_in o)
    in_delta none = refl
    in_delta (some delta) =
        ap (λ e. or_event e (get delta "toolUse" >>= λ tool_use. some (legacy_tool tool_use)))
          (text_in-event delta (get delta "text" >>= as_text))

    in_block :
        (o : Option Json)
        → ◌>>=◌ {B = KiroEvent} o (λ block. get block "delta" >>= λ delta.
            or_event
              (get delta "text" >>= as_text >>= λ t. some (content_event (chars t)))
              (get delta "toolUse" >>= λ tool_use. some (legacy_tool tool_use)))
          ≡ (let d = o >>= λ block. get block "delta" in
              or_event (text_event (text_in d)) (tool_in d))
    in_block none = refl
    in_block (some block) = in_delta (get block "delta")

-- The event is there and is no text, or is not there.
abbrev IsOther : Option KiroEvent → Type 0
IsOther none = Unit
IsOther (some e) = (e.event_type == "content") ≡ false

bind-IsOther {ℓ} :
    {A : Type ℓ} (o : Option A) (f : A → Option KiroEvent)
    → ((a : A) → IsOther (f a))
    → IsOther (o >>= f)
bind-IsOther none f h = tt
bind-IsOther (some a) f h = h a

-- The text and the rest of an event that is the first of several.
split_first :
    (u c d l : Option KiroEvent) (t : Option Text) (texts : List Text)
    → IsOther u
    → IsOther c
    → IsOther d
    → IsOther l
    → let e = or_event u (or_event c (or_event (or_event (text_event t) d) l)) in
      (push_content e texts ≡ push_said (unless (is_some u || is_some c) t) texts)
      × (other_part e ≡ to_list (or_event u (or_event c (unless (is_some t) (or_event d l)))))
split_first (some u) c d l t texts h i j k = (rw h refl, rw h refl)
split_first none (some c) d l t texts h i j k = (rw i refl, rw i refl)
split_first none none d l (some t) texts h i j k = (refl, refl)
split_first none none (some d) l none texts h i j k = (rw j refl, rw j refl)
split_first none none none (some l) none texts h i j k = (rw k refl, rw k refl)
split_first none none none none none texts h i j k = (refl, refl)

module _ (as_i64 : String → Option ℤ) (thousandfold : String → ℤ) where
  abbrev is_measure : Json → Bool
  is_measure json = is_some (usage_of as_i64 thousandfold json) || is_some (context_usage_of json)

  -- The text that a value brings: its content, or else that of a delta, where the value is no follow-up, no
  -- part of a tool call, and no measure of the usage.
  abbrev pub said : Json → Option Text
  said json = unless (is_some (get json "followupPrompt")) (elim (content_of json) [
    | some content ↦ some (chars content)
    | none ↦ unless (tool_part json || is_measure json) (text_in (delta_of json))
  ])

  -- The event of a value that is neither text nor part of a tool call.
  abbrev measured : Json → Option KiroEvent
  measured json = or_event (usage_of as_i64 thousandfold json) (
      or_event (context_usage_of json) (
        unless (is_some (text_in (delta_of json)))
          (or_event (tool_in (delta_of json)) (legacy_usage as_i64 thousandfold json))))

  abbrev pub says : List Json → List Text
  says [] = []
  says (json ∷ jsons) = push_said (said json) (says jsons)

  split_other :
      (json : Json) (texts : List Text)
      → let e = other_event as_i64 thousandfold json in
        (push_content e texts
          ≡ push_said (unless (is_measure json) (text_in (delta_of json))) texts)
        × (other_part e ≡ to_list (measured json))
  unfolding other_event usage_of context_usage_of legacy_usage legacy_tool
  split_other json texts = rw (legacy_delta_split json) (
      split_first (usage_of as_i64 thousandfold json) (context_usage_of json)
        (tool_in (delta_of json)) (legacy_usage as_i64 thousandfold json) (text_in (delta_of json))
        texts (bind-IsOther (get json "usage") _ from)
        (bind-IsOther (get json "contextUsagePercentage" >>= as_number) _ (λ n. refl))
        (bind-IsOther (delta_of json) _ (λ delta. bind-IsOther (get delta "toolUse") _ (λ t. refl)))
        (bind-IsOther (get json "metadata") _
          (λ metadata. bind-IsOther (get metadata "usage") _ (λ usage. refl))))
    where
      from : (v : Json) → IsOther (usage_from as_i64 thousandfold v)
      from (number n) = refl
      from (object fields) = refl
      from null = tt
      from (boolean b) = tt
      from (string s) = tt
      from (array items) = tt

  module _ (from_str : String → Option Json) (to_string : Json → String) where
    -- The other events of the values, each by itself but for the tool calls, whose pieces the accumulator
    -- joins; and the accumulator behind them.
    abbrev shown : ToolCallAccumulator → Json → ToolCallAccumulator × List KiroEvent
    shown tools json =
        if is_some (get json "followupPrompt") || is_some (content_of json)
        then (tools, [])
        else if tool_part json
        then (
          (process_event from_str to_string tools json).0,
          to_list (call_event (process_event from_str to_string tools json).1),
        )
        else (tools, to_list (measured json))

    abbrev pub shows : ToolCallAccumulator → List Json → ToolCallAccumulator × List KiroEvent
    shows tools [] = (tools, [])
    shows tools (json ∷ jsons) =
        let (next, events) = shown tools json in
        let (left, more) = shows next jsons in (left, events ++ more)

    parse_split :
        (tools : ToolCallAccumulator) (json : Json) (texts : List Text)
        → let (next, parsed) = parse as_i64 thousandfold from_str to_string tools json in
          (push_content parsed texts ≡ push_said (said json) texts)
          × (shown tools json ≡ (next, other_part parsed))
    unfolding parse_kiro_event_with_accumulator
    parse_split tools json texts = elim (Bool-cases (is_some (get json "followupPrompt"))) [
      | inl e ↦ rw (e, parse_kiro_event_with_accumulator) (refl, refl)
      | inr e ↦ elim (Option-cases (content_of json)) [
        | inl f ↦ elim (Bool-cases (tool_part json)) [
          | inl g ↦
              rw (e, parse_kiro_event_with_accumulator)
                (rw f (rw g (answered (process_event from_str to_string tools json))))
          | inr g ↦
              let (x, y) = split_other json texts in
              rw (e, parse_kiro_event_with_accumulator)
                (rw f (rw g (x, ap (λ l. (tools, l)) (sym y))))
        ]
        | inr (content, f) ↦ rw (e, parse_kiro_event_with_accumulator) (rw f (refl, refl))
      ]
    ]
      where
        answered :
            (answer : ToolCallAccumulator × Option ToolUse)
            → (push_content (as_tool_event answer).1 texts ≡ texts)
              × (◌≡◌ {A = ToolCallAccumulator × List KiroEvent}
                  (answer.0, to_list (call_event answer.1))
                  ((as_tool_event answer).0, other_part (as_tool_event answer).1))
        answered (acc, none) = (refl, refl)
        answered (acc, some call) = (refl, refl)

    -- What the event parser makes of the values is what they say and show.
    pub outcome-shows :
        (jsons : List Json) (tools : ToolCallAccumulator)
        → (contents as_i64 thousandfold from_str to_string tools jsons ≡ says jsons)
          × (outcome as_i64 thousandfold from_str to_string tools jsons ≡ shows tools jsons)
    unfolding contents
    outcome-shows [] tools = (refl, refl)
    outcome-shows (json ∷ jsons) tools =
        let (next, parsed) = parse as_i64 thousandfold from_str to_string tools json in
        let (same_texts, same_events) = outcome-shows jsons next in
        let (text, event) = parse_split tools json (says jsons) in
        (
          ap (push_content parsed) same_texts ∙ text,
          ap (λ (o : ToolCallAccumulator × List KiroEvent). (o.0, other_part parsed ++ o.1))
                same_events
              ∙ ap
                  (λ (o : ToolCallAccumulator × List KiroEvent).
                    ((shows o.0 jsons).0, o.1 ++ (shows o.0 jsons).1))
                  (sym event),
        )

-- ===== src/Streaming/Kiro/Content.antt =====
-- The text in the events of a stream against the text of the JSON values.
use rkgw.Base.{
  String, List, [], ◌∷◌, ◌++◌, Option, none, some, is_some, string_eq, ◌>>=◌, ◌≡◌, inl, inr, refl,
  ap, sym, ◌∙◌, Bool-cases, Option-cases,
}
use rkgw.Base.Chars.{Text, chars}
use rkgw.Base.Int.{ℤ}
use rkgw.Converters.Messages.{Json, null, boolean, number, string, array, object}
use rkgw.Converters.Choice.{get, as_text}
use rkgw.ThinkingParser.{ThinkingParser, run}
use rkgw.Streaming.Accumulator.{ToolUse, ToolCallAccumulator, process_event}
use rkgw.Streaming.Events.{
  KiroEvent, content_event, or_event, usage_from, usage_of, context_usage_of, legacy_tool,
  legacy_delta, legacy_usage, other_event, content_of, tool_part, as_tool_event, as_number,
  parse_kiro_event_with_accumulator,
}
use rkgw.Streaming.Kiro.Routed.{
  reasoning, thinking_of, regular_of, thinking_of-append, regular_of-append, others_of,
  others_of-append, other_part, IsParsedEvent, push_content, sent_parts, routed,
}
use rkgw.Streaming.Kiro.{process_jsons}

bind-IsParsedEvent {ℓ} :
    {A : Type ℓ} (o : Option A) (f : A → Option KiroEvent)
    → ((a : A) → IsParsedEvent (f a))
    → IsParsedEvent (o >>= f)
bind-IsParsedEvent none f h = tt
bind-IsParsedEvent (some a) f h = h a

or_event-IsParsedEvent :
    (a b : Option KiroEvent) → IsParsedEvent a → IsParsedEvent b → IsParsedEvent (or_event a b)
or_event-IsParsedEvent none b h k = k
or_event-IsParsedEvent (some e) b h k = h

module _ (as_i64 : String → Option ℤ) (thousandfold : String → ℤ) where
  usage_from-IsParsedEvent : (v : Json) → IsParsedEvent (usage_from as_i64 thousandfold v)
  usage_from-IsParsedEvent (number n) = refl
  usage_from-IsParsedEvent (object fields) = refl
  usage_from-IsParsedEvent null = tt
  usage_from-IsParsedEvent (boolean b) = tt
  usage_from-IsParsedEvent (string s) = tt
  usage_from-IsParsedEvent (array items) = tt

  other_event-IsParsedEvent : (json : Json) → IsParsedEvent (other_event as_i64 thousandfold json)
  unfolding other_event usage_of context_usage_of legacy_delta legacy_usage legacy_tool
  other_event-IsParsedEvent json =
      or_event-IsParsedEvent (usage_of as_i64 thousandfold json) _
        (bind-IsParsedEvent (get json "usage") _ usage_from-IsParsedEvent)
        (or_event-IsParsedEvent (context_usage_of json) _
          (bind-IsParsedEvent (get json "contextUsagePercentage" >>= as_number) _ (λ n. refl))
          (or_event-IsParsedEvent (legacy_delta json) (legacy_usage as_i64 thousandfold json)
            (bind-IsParsedEvent (get json "contentBlockDelta") _ (λ block.
              bind-IsParsedEvent (get block "delta") _ (λ delta.
                or_event-IsParsedEvent
                  (get delta "text" >>= as_text >>= λ t. some (content_event (chars t))) _
                  (bind-IsParsedEvent (get delta "text" >>= as_text) _ (λ t. refl))
                  (bind-IsParsedEvent (get delta "toolUse") _ (λ t. refl)))))
            (bind-IsParsedEvent (get json "metadata") _
              (λ metadata. bind-IsParsedEvent (get metadata "usage") _ (λ usage. refl)))))

  module _ (from_str : String → Option Json) (to_string : Json → String) where
    abbrev pub parse : ToolCallAccumulator → Json → ToolCallAccumulator × Option KiroEvent
    parse = parse_kiro_event_with_accumulator as_i64 thousandfold from_str to_string

    parse-IsParsedEvent :
        (tools : ToolCallAccumulator) (json : Json) → IsParsedEvent (parse tools json).1
    unfolding parse_kiro_event_with_accumulator
    parse-IsParsedEvent tools json = elim (Bool-cases (is_some (get json "followupPrompt"))) [
      | inl e ↦ rw (e, parse_kiro_event_with_accumulator) tt
      | inr e ↦ elim (Option-cases (content_of json)) [
        | inl none_there ↦ elim (Bool-cases (tool_part json)) [
          | inl f ↦
              rw (e, parse_kiro_event_with_accumulator)
                (rw none_there (rw f (tool_answer (process_event from_str to_string tools json))))
          | inr f ↦
              rw (e, parse_kiro_event_with_accumulator)
                (rw none_there (rw f (other_event-IsParsedEvent json)))
        ]
        | inr (content, found) ↦ rw (e, parse_kiro_event_with_accumulator) (rw found refl)
      ]
    ]
      where
        tool_answer :
            (answer : ToolCallAccumulator × Option ToolUse) → IsParsedEvent (as_tool_event answer).1
        tool_answer (acc, none) = tt
        tool_answer (acc, some call) = refl

    -- The texts that the JSON values carry.
    unfoldable pub contents : ToolCallAccumulator → List Json → List Text
    contents tools [] = []
    contents tools (json ∷ jsons) =
        let (next, parsed) = parse tools json in push_content parsed (contents next jsons)

    -- The other events that the JSON values make, and the accumulator behind them.
    abbrev pub outcome : ToolCallAccumulator → List Json → ToolCallAccumulator × List KiroEvent
    outcome tools [] = (tools, [])
    outcome tools (json ∷ jsons) =
        let (next, parsed) = parse tools json in
        let (left, more) = outcome next jsons in (left, other_part parsed ++ more)

    -- The texts go through the thinking parser, and come out as the content of the events.
    pub process_jsons-run :
        (from_text : Text → Option Json) (jsons : List Json) (tools : ToolCallAccumulator)
        (p q : ThinkingParser) (T R : Text)
        → p.handling_mode ≡ reasoning
        → run p (contents tools jsons) ≡ some (T, R, q)
        → (left : ToolCallAccumulator) × (events : List KiroEvent) × (process_jsons from_text
              from_str to_string as_i64 thousandfold tools p jsons
            ≡ some ((left, q), events))
          × (thinking_of events ≡ T)
          × (regular_of events ≡ R)
          × (outcome tools jsons ≡ (left, others_of events))
    unfolding process_jsons contents run
    process_jsons-run from_text [] tools p q T R mode h =
        let (t, r, same) = sent_parts [] [] T R p q h in
        (tools, [], ap (λ (x : ThinkingParser). some ((tools, x), [])) same, sym t, sym r, refl)
    process_jsons-run from_text (json ∷ jsons) tools p q T R mode h =
        let (next, parsed) = parse tools json in
        let (p', events, T', R', sent, mode', later, x, y, other) =
          routed parsed p q (contents next jsons) T R (parse-IsParsedEvent tools json) mode h in
        let (left, more, processed, t, r, made) =
          process_jsons-run from_text jsons next p' q T' R' mode' later in
        (
          left,
          events ++ more,
          rw sent (rw processed refl),
          thinking_of-append events more ∙ ap (λ l. thinking_of events ++ l) t ∙ sym x,
          regular_of-append events more ∙ ap (λ l. regular_of events ++ l) r ∙ sym y,
          ap (λ (o : ToolCallAccumulator × List KiroEvent). (o.0, other_part parsed ++ o.1)) made
              ∙ ap (λ l. (left, l))
                  (ap (λ l. l ++ others_of more) (sym other) ∙ sym (others_of-append events more)),
        )

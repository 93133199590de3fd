-- ===== src/Streaming/CrossFormat/ToOpenai/RoundTrip.antt =====
-- A stream of OpenAI's chunks as Anthropic's events, and these as chunks again.
use Prim.Native.String.{◌++◌ as join}
use text.Mathlib.TextLemmas.{
  append-nil as join-nil, append_assoc as join_assoc, nil-append as nil_join,
}
use rkgw.Base.{
  String, Bool, true, false, List, [], ◌∷◌, ◌++◌, Option, none, some, if◌then◌else◌, unwrap_or, ◌≡◌,
  refl, ap, sym, ◌∙◌, Bool-cases, Option-cases, inl, inr,
}
use rkgw.Base.Int.{ℤ, int_eq}
use rkgw.Base.Maps.{lookup}
use rkgw.Base.Text.{is_empty_str}
use rkgw.Streaming.CrossFormat.{
  ChatCompletionUsage, ToolCallDelta, ChatCompletionChunkChoice, ChatCompletionChunk, text_delta,
  thinking_delta, signature_delta, input_json_delta, StreamEvent, message_start,
  content_block_start, content_block_delta, content_block_stop, message_delta, message_stop, ping,
}
use rkgw.Streaming.CrossFormat.ToAnthropic.{
  OpenaiToAnthropicState, indices, stops, open_text, push_text, close_text, argument_events,
  arguments_of, stop_events, finish, usage_events, start_message, tool_content, start_tool,
  push_tool, push_tools, translate_choices, translate_chunk, translate_chunks,
}
use rkgw.Streaming.CrossFormat.ToOpenai.{
  AnthropicToOpenaiState, translate_input, translate_delta, translate_event, push_chunk,
  translate_events,
}

abbrev choice_text : ChatCompletionChunkChoice → String
choice_text choice = unwrap_or choice.delta.content ""

abbrev all_content : List ChatCompletionChunkChoice → String
all_content [] = ""
all_content (choice ∷ more) = join (choice_text choice) (all_content more)

-- The text that a stream of chunks brings, with that of all their choices.
abbrev pub contents : List ChatCompletionChunk → String
contents [] = ""
contents (chunk ∷ chunks) = join (all_content chunk.choices) (contents chunks)

abbrev first_choice : List ChatCompletionChunkChoice → List ChatCompletionChunkChoice
first_choice [] = []
first_choice (choice ∷ more) = choice ∷ []

-- The chunks with no choice behind their first.
abbrev pub first_choices : List ChatCompletionChunk → List ChatCompletionChunk
first_choices [] = []
first_choices (chunk ∷ chunks) =
    record chunk { choices = first_choice chunk.choices } ∷ first_choices chunks

abbrev event_text : StreamEvent → String
event_text (content_block_delta index (text_delta text)) = text
event_text _ = ""

abbrev text_of : List StreamEvent → String
text_of [] = ""
text_of (event ∷ events) = join (event_text event) (text_of events)

text_of-append : (x y : List StreamEvent) → text_of (x ++ y) ≡ join (text_of x) (text_of y)
text_of-append [] y = sym (nil_join (text_of y))
text_of-append (e ∷ x) y =
    ap (join (event_text e)) (text_of-append x y)
    ∙ sym (join_assoc (event_text e) (text_of x) (text_of y))

module _ (as_i64 : String → Option ℤ) (created : ℤ) where
  abbrev chunk_text : Option ChatCompletionChunk → String
  chunk_text none = ""
  chunk_text (some chunk) = all_content chunk.choices

  contents-push_chunk :
      (o : Option ChatCompletionChunk) (chunks : List ChatCompletionChunk)
      → contents (push_chunk as_i64 created o chunks) ≡ join (chunk_text o) (contents chunks)
  contents-push_chunk none chunks = sym (nil_join (contents chunks))
  contents-push_chunk (some chunk) chunks = refl

  translate_event-text :
      (s : AnthropicToOpenaiState) (event : StreamEvent)
      → chunk_text (translate_event as_i64 created s event).1 ≡ event_text event
  unfolding translate_event translate_delta translate_input
  translate_event-text s (message_start message) = refl
  translate_event-text s (content_block_start index block) = refl
  translate_event-text s (content_block_delta index (text_delta text)) = join-nil text
  translate_event-text s (content_block_delta index (thinking_delta thinking)) = refl
  translate_event-text s (content_block_delta index (signature_delta signature)) = refl
  translate_event-text s (content_block_delta index (input_json_delta partial_json)) =
      elim (Option-cases (lookup index s.tool_indices)) [
        | inl e ↦ rw (e, translate_input) refl
        | inr (info, e) ↦ rw (e, translate_input) refl
      ]
  translate_event-text s (content_block_stop index) = refl
  translate_event-text s (message_delta delta usage) = refl
  translate_event-text s message_stop = refl
  translate_event-text s ping = refl

  contents-translate_events :
      (s : AnthropicToOpenaiState) (events : List StreamEvent)
      → contents (translate_events as_i64 created s events).1 ≡ text_of events
  unfolding translate_events
  contents-translate_events s [] = refl
  contents-translate_events s (event ∷ events) =
      let (next, chunk) = translate_event as_i64 created s event in
      contents-push_chunk chunk (translate_events as_i64 created next events).1
      ∙ ap (λ t. join t (contents (translate_events as_i64 created next events).1))
          (translate_event-text s event)
      ∙ ap (join (event_text event)) (contents-translate_events next events)

stops-text : (is : List ℤ) → text_of (stops is) ≡ ""
stops-text [] = refl
stops-text (i ∷ is) = nil_join (text_of (stops is)) ∙ stops-text is

no_text : (x y : List StreamEvent) → text_of x ≡ "" → text_of (x ++ y) ≡ text_of y
no_text x y h = text_of-append x y ∙ ap (λ t. join t (text_of y)) h ∙ nil_join (text_of y)

arguments-text : (i : ℤ) (o : Option String) → text_of (argument_events i o) ≡ ""
arguments-text i none = refl
arguments-text i (some args) = elim (Bool-cases (is_empty_str args)) [
  | inl e ↦ rw e refl
  | inr e ↦ rw e (nil_join "")
]

push_text-text :
    (s : OpenaiToAnthropicState) (content : Option String)
    → text_of (push_text s content).1 ≡ unwrap_or content ""
unfolding push_text
push_text-text s none = refl
push_text-text s (some content) = elim (Bool-cases (is_empty_str content)) [
  | inl e ↦ rw (e, push_text) (sym (nothing content e))
  | inr e ↦ rw (e, push_text) (opened s.has_started_text_block)
]
  where
    nothing : (content : String) → is_empty_str content ≡ true → content ≡ ""
    nothing String.[] e = refl
    nothing (String.◌∷◌ c rest) e = absurd (cc)

    opened :
        (text : Bool)
        → text_of (
            open_text text s.content_block_index
              (content_block_delta s.content_block_index (text_delta content) ∷ []))
          ≡ content
    opened true = join-nil content
    opened false = nil_join (join content "") ∙ join-nil content

close_text-text : (s : OpenaiToAnthropicState) → text_of (close_text s).1 ≡ ""
unfolding close_text
close_text-text s = elim (Bool-cases s.has_started_text_block) [
  | inl e ↦ rw (e, close_text) (nil_join "")
  | inr e ↦ rw (e, close_text) refl
]

stop_events-text : (s : OpenaiToAnthropicState) → text_of (stop_events s) ≡ ""
stop_events-text s = stopped s.has_started_text_block
  where
    stopped :
        (text : Bool)
        → text_of (
            if text
            then content_block_stop s.content_block_index ∷ stops (indices s.tool_block_indices)
            else stops (indices s.tool_block_indices))
          ≡ ""
    stopped true =
        nil_join (text_of (stops (indices s.tool_block_indices)))
        ∙ stops-text (indices s.tool_block_indices)
    stopped false = stops-text (indices s.tool_block_indices)

finish-text :
    (s : OpenaiToAnthropicState) (usage : Option ChatCompletionUsage) (reason : Option String)
    → text_of (finish s usage reason) ≡ ""
unfolding finish
finish-text s usage none = refl
finish-text s usage (some reason) =
    no_text (stop_events s) _ (stop_events-text s) ∙ nil_join (join "" "") ∙ nil_join ""

module _ (simple_uuid : ℤ → String) (print_i32 : ℤ → String) where
  start_tool-text :
      (s : OpenaiToAnthropicState) (tc : ToolCallDelta)
      → text_of (start_tool simple_uuid print_i32 s tc).1 ≡ ""
  unfolding start_tool
  start_tool-text s tc =
      let index = (close_text s).0.content_block_index in
      no_text (close_text s).1
        (content_block_start index (tool_content simple_uuid print_i32 index tc)
          ∷ argument_events index (arguments_of tc))
        (close_text-text s)
      ∙ nil_join (text_of (argument_events index (arguments_of tc)))
      ∙ arguments-text index (arguments_of tc)

  push_tools-text :
      (tool_calls : List ToolCallDelta) (s : OpenaiToAnthropicState)
      → text_of (push_tools simple_uuid print_i32 s tool_calls).1 ≡ ""
  unfolding push_tools push_tool
  push_tools-text [] s = refl
  push_tools-text (tc ∷ tool_calls) s =
      let (next, events) = push_tool simple_uuid print_i32 s tc in
      no_text events (push_tools simple_uuid print_i32 next tool_calls).1 (one tc)
      ∙ push_tools-text tool_calls next
    where
      one : (tc : ToolCallDelta) → text_of (push_tool simple_uuid print_i32 s tc).1 ≡ ""
      one tc = elim (Option-cases (lookup tc.index s.tool_block_indices)) [
        | inl e ↦ rw (e, push_tool) (start_tool-text s tc)
        | inr (i, e) ↦ rw (e, push_tool) (arguments-text i (arguments_of tc))
      ]

  start_message-text :
      (s : OpenaiToAnthropicState) (usage : Option ChatCompletionUsage)
      → text_of (start_message simple_uuid print_i32 s usage).1 ≡ ""
  unfolding start_message
  start_message-text s usage = elim (Bool-cases s.has_started_message) [
    | inl e ↦ rw (e, start_message) refl
    | inr e ↦ rw (e, start_message) (nil_join "")
  ]

  usage-text : (usage : Option ChatCompletionUsage) → text_of (usage_events usage) ≡ ""
  usage-text none = refl
  usage-text (some usage) = nil_join ""

  translate_choices-text :
      (s : OpenaiToAnthropicState) (usage : Option ChatCompletionUsage)
      (choices : List ChatCompletionChunkChoice)
      → text_of (translate_choices simple_uuid print_i32 s usage choices).1
        ≡ all_content (first_choice choices)
  unfolding translate_choices
  translate_choices-text s usage [] = usage-text usage
  translate_choices-text s usage (choice ∷ more) =
      let (mid, texts) = push_text s choice.delta.content in
      let (last, tools) =
        push_tools simple_uuid print_i32 mid (unwrap_or choice.delta.tool_calls []) in
      let ends = finish last usage choice.finish_reason in
      text_of-append texts (tools ++ ends)
      ∙ ap (join (text_of texts)) (
          no_text tools ends (push_tools-text (unwrap_or choice.delta.tool_calls []) mid)
          ∙ finish-text last usage choice.finish_reason)
      ∙ join-nil (text_of texts)
      ∙ push_text-text s choice.delta.content
      ∙ sym (join-nil (choice_text choice))

  translate_chunks-text :
      (chunks : List ChatCompletionChunk) (s : OpenaiToAnthropicState)
      → text_of (translate_chunks simple_uuid print_i32 s chunks).1
        ≡ contents (first_choices chunks)
  unfolding translate_chunks translate_chunk
  translate_chunks-text [] s = refl
  translate_chunks-text (chunk ∷ chunks) s =
      let (started, first) = start_message simple_uuid print_i32 s chunk.usage in
      let (next, events) =
        translate_choices simple_uuid print_i32 started chunk.usage chunk.choices in
      let later = (translate_chunks simple_uuid print_i32 next chunks).1 in
      text_of-append (first ++ events) later
      ∙ ap (λ t. join t (text_of later))
          (no_text first events (start_message-text s chunk.usage)
            ∙ translate_choices-text started chunk.usage chunk.choices)
      ∙ ap (join (all_content (first_choice chunk.choices))) (translate_chunks-text chunks next)

  -- The text of the first choices of a stream's chunks comes through both translations, from chunks to
  -- Anthropic's events and from these to chunks again, and no other text comes out: what further choices
  -- bring is lost. The two translators may be in any states.
  pub contents_round_trip :
      (as_i64 : String → Option ℤ) (created : ℤ) (s : OpenaiToAnthropicState)
      (t : AnthropicToOpenaiState) (chunks : List ChatCompletionChunk)
      → let events = (translate_chunks simple_uuid print_i32 s chunks).1 in
        contents (translate_events as_i64 created t events).1 ≡ contents (first_choices chunks)
  contents_round_trip as_i64 created s t chunks =
      contents-translate_events as_i64 created t (translate_chunks simple_uuid print_i32 s chunks).1
      ∙ translate_chunks-text chunks s

-- ===== src/Streaming/Accumulator/Calls.antt =====
-- What the accumulator makes of the events of a stream.
use Prim.Native.String.{◌++◌ as join}
use rkgw.Base.{
  String, true, false, List, [], ◌∷◌, ◌++◌, Option, none, some, ◌≡◌, ◌≢◌, ◌==◌, ◌⊎◌, refl, ap, sym,
  ◌∙◌, inl, inr, All, append-nil, append_assoc, beq_refl, string_eq, unwrap_or, Bool-cases,
  Option-cases,
}
use rkgw.Base.Text.{is_empty_str}
use rkgw.Converters.Messages.{Json}
use rkgw.Streaming.Accumulator.{
  ToolUse, AccumulatingTool, ToolCallAccumulator, has_stop, event_id, event_name, is_same_tool,
  event_input, append_input, complete_tool, take_tool, push_input, finalize_current, continue_tool,
  start_tool, process_event, finalize,
}

abbrev push_call : Option ToolUse → List ToolUse → List ToolUse
push_call none calls = calls
push_call (some call) calls = call ∷ calls

-- An event goes on with the call that has this id: it has no name, or the id with a name.
abbrev pub GoesOn : String → Json → Type 0
GoesOn id event =
    (event_name event ≡ none)
    ⊎ ((name : String) × (event_name event ≡ some name) × (event_id event ≡ some id))

abbrev pub holding : ToolCallAccumulator → AccumulatingTool → ToolCallAccumulator
holding acc tool = record acc { current_tool = some tool }

is_same_tool-ne :
    (tool : AccumulatingTool) (id : Option String)
    → id ≢ some tool.tool_use_id
    → is_same_tool (some tool) id ≡ false
unfolding is_same_tool
is_same_tool-ne tool none h = refl
is_same_tool-ne tool (some id) h = elim (Bool-cases (tool.tool_use_id == id)) [
  | inl e ↦ absurd (h (ap some (sym ((string_eq.beq_iff tool.tool_use_id id).0 e))))
  | inr e ↦ elim (Bool-cases (is_empty_str tool.tool_use_id)) [
    | inl f ↦ rw (e, f) refl
    | inr f ↦ rw (e, f) refl
  ]
]

module _ (from_str : String → Option Json) (to_string : Json → String) where
  -- The accumulator behind the events, and the calls that it has answered.
  unfoldable pub process_events :
      ToolCallAccumulator → List Json → ToolCallAccumulator × List ToolUse
  process_events acc [] = (acc, [])
  process_events acc (event ∷ events) =
      let (next, call) = process_event from_str to_string acc event in
      let (last, calls) = process_events next events in (last, push_call call calls)

  abbrev pub inputs : String → List Json → String
  inputs s [] = s
  inputs s (event ∷ events) = inputs (join s (event_input from_str to_string event)) events

  continue_event :
      (acc : ToolCallAccumulator) (tool : AccumulatingTool) (event : Json)
      → is_empty_str tool.tool_use_id ≡ false
      → GoesOn tool.tool_use_id event
      → process_event from_str to_string (holding acc tool) event
        ≡ continue_tool from_str to_string (holding acc tool) event
  unfolding process_event is_same_tool
  continue_event acc tool event filled (inl e) = rw (e, process_event) refl
  continue_event acc tool event filled (inr (name, e, f)) =
      rw (e, process_event) (rw (f, filled, beq_refl tool.tool_use_id) refl)

  events_continue :
      (parts : List Json) (acc : ToolCallAccumulator) (tool : AccumulatingTool) (last : Json)
      → is_empty_str tool.tool_use_id ≡ false
      → All (λ event. GoesOn tool.tool_use_id event × (has_stop event ≡ false)) parts
      → GoesOn tool.tool_use_id last
      → has_stop last ≡ true
      → process_events (holding acc tool) (parts ++ (last ∷ [])) ≡ (
          let call =
            complete_tool from_str to_string
              (record tool { input_str = inputs tool.input_str (parts ++ (last ∷ [])) }) in
          (
            record acc {
              current_tool = none;
              completed_tools = acc.completed_tools ++ (call ∷ []);
            },
            call ∷ [],
          ))
  unfolding process_events continue_tool finalize_current
  events_continue [] acc tool last filled h goes stops =
      rw (continue_event acc tool last filled goes) (rw (stops, continue_tool) refl)
  events_continue (event ∷ parts) acc tool last filled ((on, runs), h) goes stops =
      let later =
        events_continue parts acc (append_input tool (event_input from_str to_string event)) last
          filled h goes stops in
      rw (continue_event acc tool event filled on) (rw (runs, continue_tool) later)

  -- A call whose id is not empty, from its first event over any number of pieces to the event that
  -- stops it, starting without a call in progress: nothing is answered before the last event, which
  -- answers the one call, with the arguments that the pieces make together.
  pub process_events-call :
      (acc : ToolCallAccumulator) (first last : Json) (parts : List Json) (id name : String)
      → acc.current_tool ≡ none
      → event_name first ≡ some name
      → event_id first ≡ some id
      → is_empty_str id ≡ false
      → has_stop first ≡ false
      → All (λ event. GoesOn id event × (has_stop event ≡ false)) parts
      → GoesOn id last
      → has_stop last ≡ true
      → let text = inputs (event_input from_str to_string first) (parts ++ (last ∷ [])) in
        let call =
          complete_tool from_str to_string
            (record { tool_use_id = id; name = name; input_str = text }) in
        process_events acc (first ∷ (parts ++ (last ∷ []))) ≡ (
          record acc { current_tool = none; completed_tools = acc.completed_tools ++ (call ∷ []) },
          call ∷ [],
        )
  unfolding process_events process_event start_tool finalize_current is_same_tool
  process_events-call acc first last parts id name idle named known filled runs h goes stops =
      let tool : AccumulatingTool = record {
        tool_use_id = id;
        name = name;
        input_str = event_input from_str to_string first;
      } in
      rw (named, process_event)
        (rw idle
          (rw (known, runs, start_tool) (events_continue parts acc tool last filled h goes stops)))

  -- Pieces of a call that do not stop it, and whatever follows them.
  events_onward :
      (parts : List Json) (acc : ToolCallAccumulator) (tool : AccumulatingTool) (more : List Json)
      → is_empty_str tool.tool_use_id ≡ false
      → All (λ event. GoesOn tool.tool_use_id event × (has_stop event ≡ false)) parts
      → process_events (holding acc tool) (parts ++ more)
        ≡ process_events
            (holding acc (record tool { input_str = inputs tool.input_str parts }))
            more
  unfolding process_events continue_tool
  events_onward [] acc tool more filled h = refl
  events_onward (event ∷ parts) acc tool more filled ((on, runs), h) =
      let later =
        events_onward parts acc (append_input tool (event_input from_str to_string event)) more
          filled h in
      rw (continue_event acc tool event filled on) (rw (runs, continue_tool) later)

  -- An event that names another call and stops.
  event_interrupts :
      (acc : ToolCallAccumulator) (event : Json) (tool : AccumulatingTool) (name : String)
      → event_name event ≡ some name
      → is_same_tool (some tool) (event_id event) ≡ false
      → has_stop event ≡ true
      → let lost = complete_tool from_str to_string tool in
        let call = complete_tool from_str to_string (record {
          tool_use_id = unwrap_or (event_id event) "";
          name = name;
          input_str = event_input from_str to_string event;
        }) in
        process_event from_str to_string (holding acc tool) event ≡ (
          record acc {
            current_tool = none;
            completed_tools = (acc.completed_tools ++ (lost ∷ [])) ++ (call ∷ []);
          },
          some call,
        )
  unfolding process_event start_tool finalize_current
  event_interrupts acc event tool name named other stops =
      rw (named, process_event) (rw other (rw (stops, start_tool) refl))

  -- Without a call in progress, the end of the stream answers nothing.
  ended :
      (acc : ToolCallAccumulator)
      → acc.current_tool ≡ none
      → (finalize from_str to_string acc).1 ≡ none
  unfolding finalize finalize_current
  ended acc idle = elim (Bool-cases acc.finalized) [
    | inl e ↦ rw (e, finalize) refl
    | inr e ↦ rw (e, finalize) (rw idle refl)
  ]

  interrupted_run :
      (acc : ToolCallAccumulator) (first last : Json) (parts : List Json) (id name other : String)
      → acc.current_tool ≡ none
      → event_name first ≡ some name
      → event_id first ≡ some id
      → is_empty_str id ≡ false
      → has_stop first ≡ false
      → All (λ event. GoesOn id event × (has_stop event ≡ false)) parts
      → event_name last ≡ some other
      → event_id last ≢ some id
      → has_stop last ≡ true
      → let text = inputs (event_input from_str to_string first) parts in
        let lost =
          complete_tool from_str to_string
            (record { tool_use_id = id; name = name; input_str = text }) in
        let call = complete_tool from_str to_string (record {
          tool_use_id = unwrap_or (event_id last) "";
          name = other;
          input_str = event_input from_str to_string last;
        }) in
        process_events acc (first ∷ (parts ++ (last ∷ []))) ≡ (
          record acc {
            current_tool = none;
            completed_tools = (acc.completed_tools ++ (lost ∷ [])) ++ (call ∷ []);
          },
          call ∷ [],
        )
  unfolding process_events process_event start_tool finalize_current is_same_tool
  interrupted_run acc first last parts id name other idle named known filled runs h interrupts
        differs stops =
      let tool : AccumulatingTool = record {
        tool_use_id = id;
        name = name;
        input_str = event_input from_str to_string first;
      } in
      let whole = record tool { input_str = inputs tool.input_str parts } in
      let e =
        event_interrupts acc last whole other interrupts
          (is_same_tool-ne whole (event_id last) differs) stops in
      rw (named, process_event)
        (rw idle (
          rw (known, runs, start_tool)
            (rw (events_onward parts acc tool (last ∷ []) filled h) (rw e refl))))

  -- A call whose id is not empty, from its first event over any number of pieces that do not stop it, and
  -- then an event that names a call with another id, or none, and stops: of the two calls, both of
  -- which are completed, only the second is answered, and the end of the stream answers nothing more.
  pub process_events-lost :
      (acc : ToolCallAccumulator) (first last : Json) (parts : List Json) (id name other : String)
      → acc.current_tool ≡ none
      → event_name first ≡ some name
      → event_id first ≡ some id
      → is_empty_str id ≡ false
      → has_stop first ≡ false
      → All (λ event. GoesOn id event × (has_stop event ≡ false)) parts
      → event_name last ≡ some other
      → event_id last ≢ some id
      → has_stop last ≡ true
      → let text = inputs (event_input from_str to_string first) parts in
        let lost =
          complete_tool from_str to_string
            (record { tool_use_id = id; name = name; input_str = text }) in
        let call = complete_tool from_str to_string (record {
          tool_use_id = unwrap_or (event_id last) "";
          name = other;
          input_str = event_input from_str to_string last;
        }) in
        let (behind, calls) = process_events acc (first ∷ (parts ++ (last ∷ []))) in
        (calls ≡ call ∷ [])
        × (behind.completed_tools ≡ (acc.completed_tools ++ (lost ∷ [])) ++ (call ∷ []))
        × ((finalize from_str to_string behind).1 ≡ none)
  process_events-lost acc first last parts id name other idle named known filled runs h interrupts
        differs stops =
      let e =
        interrupted_run acc first last parts id name other idle named known filled runs h interrupts
          differs stops in
      (
        ap (λ (x : ToolCallAccumulator × List ToolUse). x.1) e,
        ap (λ (x : ToolCallAccumulator × List ToolUse). x.0.completed_tools) e,
        ended (process_events acc (first ∷ (parts ++ (last ∷ [])))).0
            (ap (λ (x : ToolCallAccumulator × List ToolUse). x.0.current_tool) e),
      )

  taken :
      (acc : ToolCallAccumulator) (tool : Option AccumulatingTool)
      → let (next, call) = take_tool from_str to_string acc tool in
        next.completed_tools ≡ acc.completed_tools ++ push_call call []
  taken acc none = sym (append-nil acc.completed_tools)
  taken acc (some tool) = refl

  continued :
      (acc : ToolCallAccumulator) (event : Json)
      → let (next, call) = continue_tool from_str to_string acc event in
        next.completed_tools ≡ acc.completed_tools ++ push_call call []
  unfolding continue_tool finalize_current
  continued acc event = elim (Bool-cases (has_stop event)) [
    | inl stops ↦ rw (stops, continue_tool) (taken_pushed acc.current_tool)
    | inr runs ↦ rw (runs, continue_tool) (pushed acc.current_tool)
  ]
    where
      taken_pushed :
          (tool : Option AccumulatingTool)
          → let pushed_acc = push_input acc tool (event_input from_str to_string event) in
            let (next, call) = take_tool from_str to_string pushed_acc pushed_acc.current_tool in
            next.completed_tools ≡ acc.completed_tools ++ push_call call []
      taken_pushed none = taken acc acc.current_tool
      taken_pushed (some tool) = refl

      pushed :
          (tool : Option AccumulatingTool)
          → (push_input acc tool (event_input from_str to_string event)).completed_tools
            ≡ acc.completed_tools ++ []
      pushed none = sym (append-nil acc.completed_tools)
      pushed (some tool) = sym (append-nil acc.completed_tools)

  processed :
      (acc : ToolCallAccumulator) (event : Json)
      → (event_name event ≡ none) ⊎ (has_stop event ≡ false)
      → let (next, call) = process_event from_str to_string acc event in
        next.completed_tools ≡ acc.completed_tools ++ push_call call []
  unfolding process_event start_tool finalize_current
  processed acc event (inl unnamed) = rw (unnamed, process_event) (continued acc event)
  processed acc event (inr runs) = elim (Option-cases (event_name event)) [
    | inl unnamed ↦ rw (unnamed, process_event) (continued acc event)
    | inr (name, named) ↦ elim (Bool-cases (is_same_tool acc.current_tool (event_id event))) [
      | inl same ↦ rw (named, process_event) (rw same (continued acc event))
      | inr other ↦
          rw (named, process_event) (rw other (rw (runs, start_tool) (taken acc acc.current_tool)))
    ]
  ]

  push_call-append :
      (call : Option ToolUse) (before calls : List ToolUse)
      → (before ++ push_call call []) ++ calls ≡ before ++ push_call call calls
  push_call-append none before calls = ap (λ l. l ++ calls) (append-nil before)
  push_call-append (some call) before calls = append_assoc before (call ∷ []) calls

  -- Where no event names a call and stops at once, every call that is completed is answered, in
  -- order, and no other.
  pub process_events-completed :
      (acc : ToolCallAccumulator) (events : List Json)
      → All (λ event. (event_name event ≡ none) ⊎ (has_stop event ≡ false)) events
      → let (last, calls) = process_events acc events in
        last.completed_tools ≡ acc.completed_tools ++ calls
  unfolding process_events
  process_events-completed acc [] h = sym (append-nil acc.completed_tools)
  process_events-completed acc (event ∷ events) (one, h) =
      let (next, call) = process_event from_str to_string acc event in
      let calls = (process_events next events).1 in
      process_events-completed next events h
      ∙ ap (λ l. l ++ calls) (processed acc event one)
      ∙ push_call-append call acc.completed_tools calls

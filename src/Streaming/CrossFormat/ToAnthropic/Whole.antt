-- ===== src/Streaming/CrossFormat/ToAnthropic/Whole.antt =====
-- The events of a whole stream of chunks, up to the chunk that finishes it, and behind it.
use rkgw.Base.{
  ℕ, ◌+◌, ◌*◌, ◌≤◌, String, true, List, [], ◌∷◌, ◌++◌, Option, none, some, if◌then◌else◌, unwrap_or,
  length, ◌≡◌, refl, ap, sym, ◌∙◌, subst, arith, Bool-cases, inl, inr, All, append_assoc,
  append-nil,
}
use rkgw.Base.Int.{ℤ, pos, int_eq}
use rkgw.Streaming.CrossFormat.{
  ChatCompletionUsage, ToolCallDelta, ChatCompletionChunkChoice, ChatCompletionChunk, StreamEvent,
  content_block_stop, message_delta, message_stop,
}
use rkgw.Streaming.CrossFormat.ToAnthropic.{
  OpenaiToAnthropicState, indices, stops, push_text, reason_delta, stop_reason, finish,
  usage_events, new, start_message, push_tools, translate_choices, translate_chunk,
  translate_chunks,
}
use rkgw.Streaming.CrossFormat.ToAnthropic.Blocks.{
  Reader, fresh_reader, is_running, read, read_all, read_all-append, next_block, reader_of,
  reader_at, Leads, Leads-append, blocks, stop_read, push_text-Leads, push_tools-Leads,
}

module _ (simple_uuid : ℤ → String) (print_i32 : ℤ → String) where
  start_message-Leads :
      (s : OpenaiToAnthropicState) (n : ℕ) (usage : Option ChatCompletionUsage)
      → s.content_block_index ≡ pos n
      → let (t, events) = start_message simple_uuid print_i32 s usage in Leads s n 0 t events
  unfolding start_message read_all
  start_message-Leads s n usage at = elim (Bool-cases s.has_started_message) [
    | inl e ↦ rw (e, start_message) (n, at, omega arith, refl, refl)
    | inr e ↦ rw (e, start_message) (n, at, omega arith, refl, refl)
  ]

-- The tool calls that a chunk's first choice has a part of.
abbrev pub first_tools : List ChatCompletionChunkChoice → List ToolCallDelta
first_tools [] = []
first_tools (choice ∷ more) = unwrap_or choice.delta.tool_calls []

abbrev pub AreUnfinished : List ChatCompletionChunkChoice → Type 0
AreUnfinished [] = Unit
AreUnfinished (choice ∷ more) = choice.finish_reason ≡ none

usage_read :
    (usage : Option ChatCompletionUsage) (r : Reader)
    → is_running r ≡ true
    → read_all r (usage_events usage) ≡ some r
unfolding read_all
usage_read none r h = refl
usage_read (some usage) r h = rw (h, read) refl

abbrev stopped_reader : ℕ → Reader
stopped_reader n = record { started = true; stopped = true; next = n; opened = [] }

finish_read :
    (s : OpenaiToAnthropicState) (n : ℕ) (usage : Option ChatCompletionUsage) (reason : String)
    → s.content_block_index ≡ pos n
    → s.has_started_message ≡ true
    → read_all (reader_at s n) (finish s usage (some reason))
      ≡ some (stopped_reader (next_block s.has_started_text_block n))
unfolding finish read_all
finish_read s n usage reason at started =
    let tools = indices s.tool_block_indices in
    let text = s.has_started_text_block in
    let tokens : ℤ = elim usage [ none ↦ pos 0 | some u ↦ u.completion_tokens ] in
    rw (at, started)
      (read_all-append (reader_of true text (blocks text n tools) n) (reader_of true text [] n)
        (if text then content_block_stop (pos n) ∷ stops tools else stops tools)
        (message_delta (reason_delta (stop_reason reason)) (record { output_tokens = tokens })
          ∷ message_stop
          ∷ [])
        (stop_read text n tools))

module _ (simple_uuid : ℤ → String) (print_i32 : ℤ → String) where
  -- The text and the tool calls of a choice.
  choice-Leads :
      (s : OpenaiToAnthropicState) (n : ℕ) (content : Option String)
      (tool_calls : List ToolCallDelta)
      → s.content_block_index ≡ pos n
      → s.has_started_message ≡ true
      → n + 2 * length tool_calls ≤ 2147483647
      → let (mid, texts) = push_text s content in
        let (last, tools) = push_tools simple_uuid print_i32 mid tool_calls in
        Leads s n (0 + 2 * length tool_calls) last (texts ++ tools)
  choice-Leads s n content tool_calls at started small =
      let (mid, texts) = push_text s content in
      let (last, tools) = push_tools simple_uuid print_i32 mid tool_calls in
      Leads-append s mid last n 0 (2 * length tool_calls) texts tools
        (push_text-Leads s n content at started)
        (λ m at' small' started'.
          push_tools-Leads simple_uuid print_i32 tool_calls mid m at' started' (omega arith))

  translate_choices-Leads :
      (s : OpenaiToAnthropicState) (n : ℕ) (usage : Option ChatCompletionUsage)
      (choices : List ChatCompletionChunkChoice)
      → s.content_block_index ≡ pos n
      → s.has_started_message ≡ true
      → AreUnfinished choices
      → n + 2 * length (first_tools choices) ≤ 2147483647
      → let (t, events) = translate_choices simple_uuid print_i32 s usage choices in
        Leads s n (0 + 2 * length (first_tools choices)) t events
  unfolding translate_choices
  translate_choices-Leads s n usage [] at started h small =
      (n, at, omega arith, started, usage_read usage (reader_at s n) (rw started refl))
  translate_choices-Leads s n usage (choice ∷ more) at started h small =
      let tool_calls = unwrap_or choice.delta.tool_calls [] in
      let (mid, texts) = push_text s choice.delta.content in
      let (last, tools) = push_tools simple_uuid print_i32 mid tool_calls in
      subst (λ l. Leads s n (0 + 2 * length tool_calls) last (texts ++ l))
        (sym (nothing last usage tools choice.finish_reason h))
        (choice-Leads s n choice.delta.content tool_calls at started small)
    where
      nothing :
          (last : OpenaiToAnthropicState) (usage : Option ChatCompletionUsage)
          (tools : List StreamEvent) (o : Option String)
          → o ≡ none
          → tools ++ finish last usage o ≡ tools
      nothing last usage tools o e = ap (λ o. tools ++ finish last usage o) e ∙ append-nil tools

  translate_chunk-Leads :
      (s : OpenaiToAnthropicState) (n : ℕ) (chunk : ChatCompletionChunk)
      → s.content_block_index ≡ pos n
      → AreUnfinished chunk.choices
      → n + 2 * length (first_tools chunk.choices) ≤ 2147483647
      → let (t, events) = translate_chunk simple_uuid print_i32 s chunk in
        Leads s n (0 + (0 + 2 * length (first_tools chunk.choices))) t events
  unfolding translate_chunk
  translate_chunk-Leads s n chunk at h small =
      let (mid, start_events) = start_message simple_uuid print_i32 s chunk.usage in
      let (last, events) = translate_choices simple_uuid print_i32 mid chunk.usage chunk.choices in
      Leads-append s mid last n 0 (0 + 2 * length (first_tools chunk.choices)) start_events events
        (start_message-Leads simple_uuid print_i32 s n chunk.usage at)
        (λ m at' small' started'.
          translate_choices-Leads mid m chunk.usage chunk.choices at' started' h (omega arith))

  abbrev pub tool_parts : List ChatCompletionChunk → ℕ
  tool_parts [] = 0
  tool_parts (chunk ∷ chunks) = length (first_tools chunk.choices) + tool_parts chunks

  translate_chunks-read :
      (chunks : List ChatCompletionChunk) (s : OpenaiToAnthropicState) (n : ℕ)
      → s.content_block_index ≡ pos n
      → All (λ chunk. AreUnfinished chunk.choices) chunks
      → n + 2 * tool_parts chunks ≤ 2147483647
      → let (t, events) = translate_chunks simple_uuid print_i32 s chunks in
        (m : ℕ) × (t.content_block_index ≡ pos m)
        × (m ≤ n + 2 * tool_parts chunks)
        × (read_all (reader_at s n) events ≡ some (reader_at t m))
  unfolding translate_chunks read_all
  translate_chunks-read [] s n at h small = (n, at, omega arith, refl)
  translate_chunks-read (chunk ∷ chunks) s n at (one, h) small =
      let (next, events) = translate_chunk simple_uuid print_i32 s chunk in
      let (m, at', small', started, e) = translate_chunk-Leads s n chunk at one (omega arith) in
      let (m', at'', small'', e') = translate_chunks-read chunks next m at' h (omega arith) in
      (
        m',
        at'',
        omega arith,
        read_all-append (reader_at s n) (reader_at next m) events
              (translate_chunks simple_uuid print_i32 next chunks).1 e
            ∙ e',
      )

  translate_chunks-append :
      (s : OpenaiToAnthropicState) (a b : List ChatCompletionChunk)
      → let (mid, events) = translate_chunks simple_uuid print_i32 s a in
        let (last, more) = translate_chunks simple_uuid print_i32 mid b in
        translate_chunks simple_uuid print_i32 s (a ++ b) ≡ (last, events ++ more)
  unfolding translate_chunks
  translate_chunks-append s [] b = refl
  translate_chunks-append s (chunk ∷ a) b =
      let (next, events) = translate_chunk simple_uuid print_i32 s chunk in
      let (mid, more) = translate_chunks simple_uuid print_i32 next a in
      let (last, later) = translate_chunks simple_uuid print_i32 mid b in
      ap (λ (x : OpenaiToAnthropicState × List StreamEvent). (x.0, events ++ x.1))
        (translate_chunks-append next a b)
      ∙ ap (λ l. (last, l)) (sym (append_assoc events more later))

  final_choices-read :
      (s : OpenaiToAnthropicState) (n : ℕ) (usage : Option ChatCompletionUsage)
      (choice : ChatCompletionChunkChoice) (more : List ChatCompletionChunkChoice) (reason : String)
      → s.content_block_index ≡ pos n
      → s.has_started_message ≡ true
      → choice.finish_reason ≡ some reason
      → n + 2 * length (first_tools (choice ∷ more)) ≤ 2147483647
      → let (t, events) = translate_choices simple_uuid print_i32 s usage (choice ∷ more) in
        (t.has_started_message ≡ true)
        × (m : ℕ) × (read_all (reader_at s n) events ≡ some (stopped_reader m))
  unfolding translate_choices
  final_choices-read s n usage choice more reason at started reason_is small =
      let tool_calls = unwrap_or choice.delta.tool_calls [] in
      let (mid, texts) = push_text s choice.delta.content in
      let (last, tools) = push_tools simple_uuid print_i32 mid tool_calls in
      let (m, at', small', started', e) =
        choice-Leads s n choice.delta.content tool_calls at started small in
      (
        started',
        next_block last.has_started_text_block m,
        ap (read_all (reader_at s n)) (
              ap (λ o. texts ++ (tools ++ finish last usage o)) reason_is
              ∙ sym (append_assoc texts tools (finish last usage (some reason))))
            ∙ read_all-append (reader_at s n) (reader_at last m) (texts ++ tools)
                (finish last usage (some reason)) e
            ∙ finish_read last m usage reason at' started',
      )

  final_chunk-read :
      (s : OpenaiToAnthropicState) (n : ℕ) (chunk : ChatCompletionChunk)
      (choice : ChatCompletionChunkChoice) (more : List ChatCompletionChunkChoice) (reason : String)
      → s.content_block_index ≡ pos n
      → chunk.choices ≡ choice ∷ more
      → choice.finish_reason ≡ some reason
      → n + 2 * length (first_tools (choice ∷ more)) ≤ 2147483647
      → let (t, events) = translate_chunk simple_uuid print_i32 s chunk in
        (t.has_started_message ≡ true)
        × (m : ℕ) × (read_all (reader_at s n) events ≡ some (stopped_reader m))
  unfolding translate_chunk
  final_chunk-read s n chunk choice more reason at choices reason_is small =
      let (mid, start_events) = start_message simple_uuid print_i32 s chunk.usage in
      let (m, at', small', started, e) =
        start_message-Leads simple_uuid print_i32 s n chunk.usage at in
      let (started', m', e') =
        final_choices-read mid m chunk.usage choice more reason at' started reason_is
          (omega arith) in
      rw choices (
        started',
        m',
        read_all-append (reader_at s n) (reader_at mid m) start_events
              (translate_choices simple_uuid print_i32 mid chunk.usage (choice ∷ more)).1 e
            ∙ e',
      )

  finished_at :
      (uuid model : String) (chunks : List ChatCompletionChunk) (last : ChatCompletionChunk)
      (choice : ChatCompletionChunkChoice) (more : List ChatCompletionChunkChoice) (reason : String)
      → All (λ chunk. AreUnfinished chunk.choices) chunks
      → last.choices ≡ choice ∷ more
      → choice.finish_reason ≡ some reason
      → 2 * (tool_parts chunks + length (first_tools (choice ∷ more))) ≤ 2147483647
      → let (t, events) =
          translate_chunks simple_uuid print_i32
            (new simple_uuid print_i32 uuid model)
            (chunks ++ (last ∷ [])) in
        (t.has_started_message ≡ true)
        × (m : ℕ) × (read_all fresh_reader events ≡ some (stopped_reader m))
  unfolding translate_chunks
  finished_at uuid model chunks last choice more reason h choices reason_is small =
      let s = new simple_uuid print_i32 uuid model in
      let (mid, events) = translate_chunks simple_uuid print_i32 s chunks in
      let (m, at, small', e) = translate_chunks-read chunks s 0 refl h (omega arith) in
      let (started, m', e') =
        final_chunk-read mid m last choice more reason at choices reason_is (omega arith) in
      let last_events = (translate_chunk simple_uuid print_i32 mid last).1 in
      let whole = translate_chunks-append s chunks (last ∷ []) in
      (
        ap (λ (x : OpenaiToAnthropicState × List StreamEvent). x.0.has_started_message) whole
            ∙ started,
        m',
        ap (λ (x : OpenaiToAnthropicState × List StreamEvent). read_all fresh_reader x.1) whole
            ∙ read_all-append fresh_reader (reader_at mid m) events (last_events ++ []) e
            ∙ ap (read_all (reader_at mid m)) (append-nil last_events)
            ∙ e',
      )

  -- The chunks of a stream up to one that finishes it become events that a reader may expect: the message
  -- starts once and first, blocks are numbered from 0 and written to while they are open, and all are
  -- closed before the message stops. The stream has less than 2^30 parts of tool calls.
  pub translate_chunks-finished :
      (uuid model : String) (chunks : List ChatCompletionChunk) (last : ChatCompletionChunk)
      (choice : ChatCompletionChunkChoice) (more : List ChatCompletionChunkChoice) (reason : String)
      → All (λ chunk. AreUnfinished chunk.choices) chunks
      → last.choices ≡ choice ∷ more
      → choice.finish_reason ≡ some reason
      → 2 * (tool_parts chunks + length (first_tools (choice ∷ more))) ≤ 2147483647
      → let (s, events) =
          translate_chunks simple_uuid print_i32
            (new simple_uuid print_i32 uuid model)
            (chunks ++ (last ∷ [])) in
        (r : Reader) × (read_all fresh_reader events ≡ some r)
        × (r.stopped ≡ true)
        × (r.opened ≡ [])
  translate_chunks-finished uuid model chunks last choice more reason h choices reason_is small =
      let (started, m, e) =
        finished_at uuid model chunks last choice more reason h choices reason_is small in
      (stopped_reader m, e, refl, refl)

  extra_events :
      (s : OpenaiToAnthropicState) (extra : ChatCompletionChunk) (usage : ChatCompletionUsage)
      → s.has_started_message ≡ true
      → extra.choices ≡ []
      → extra.usage ≡ some usage
      → (translate_chunk simple_uuid print_i32 s extra).1 ++ [] ≡ usage_events (some usage)
  unfolding translate_chunk start_message translate_choices
  extra_events s extra usage started empty used =
      rw (empty, used) (rw (started, start_message) refl)

  -- A chunk with the usage and no choice, behind the chunk that finishes the stream, adds just one event:
  -- a message delta with the usage and the reason `end_turn`. It stands behind the events of the chunks
  -- before it, of which a reader has read that the message has stopped; so no reader expects it.
  pub translate_chunks-usage :
      (uuid model : String) (chunks : List ChatCompletionChunk) (last extra : ChatCompletionChunk)
      (choice : ChatCompletionChunkChoice) (more : List ChatCompletionChunkChoice) (reason : String)
      (usage : ChatCompletionUsage)
      → All (λ chunk. AreUnfinished chunk.choices) chunks
      → last.choices ≡ choice ∷ more
      → choice.finish_reason ≡ some reason
      → 2 * (tool_parts chunks + length (first_tools (choice ∷ more))) ≤ 2147483647
      → extra.choices ≡ []
      → extra.usage ≡ some usage
      → let s = new simple_uuid print_i32 uuid model in
        let before = (translate_chunks simple_uuid print_i32 s (chunks ++ (last ∷ []))).1 in
        let all = (translate_chunks simple_uuid print_i32 s (chunks ++ (last ∷ extra ∷ []))).1 in
        (all
          ≡ before
            ++ (message_delta
                  (reason_delta "end_turn")
                  (record { output_tokens = usage.completion_tokens })
                ∷ []))
        × ((r : Reader) × (read_all fresh_reader before ≡ some r) × (r.stopped ≡ true))
        × (read_all fresh_reader all ≡ none)
  unfolding translate_chunks read_all
  translate_chunks-usage uuid model chunks last extra choice more reason usage h choices reason_is
        small empty used =
      let s = new simple_uuid print_i32 uuid model in
      let (after, before) = translate_chunks simple_uuid print_i32 s (chunks ++ (last ∷ [])) in
      let (started, m, e) =
        finished_at uuid model chunks last choice more reason h choices reason_is small in
      let split =
        ap (λ l. (translate_chunks simple_uuid print_i32 s l).1)
          (sym (append_assoc chunks (last ∷ []) (extra ∷ [])))
        ∙ ap (λ (x : OpenaiToAnthropicState × List StreamEvent). x.1)
            (translate_chunks-append s (chunks ++ (last ∷ [])) (extra ∷ []))
        ∙ ap (λ l. before ++ l) (extra_events after extra usage started empty used) in
      (
        split,
        (stopped_reader m, e, refl),
        ap (read_all fresh_reader) split
            ∙ read_all-append fresh_reader (stopped_reader m) before (usage_events (some usage)) e,
      )

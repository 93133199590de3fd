-- ===== src/Streaming/Kiro/Whole.antt =====
-- A stream of events against the whole text of its chunks.
use rkgw.Base.{
  ℕ, String, false, List, [], ◌∷◌, ◌++◌, Option, none, some, unwrap_or, ◌>>=◌, ◌≡◌, refl, ap, sym,
  ◌∙◌, subst, append_assoc,
}
use rkgw.Base.Chars.{Text}
use rkgw.Base.Int.{ℤ}
use rkgw.Converters.Messages.{Json}
use rkgw.ThinkingParser
use rkgw.ThinkingParser.{ThinkingParser, default_tags, run, with_config}
use rkgw.ThinkingParser.Closing.{before}
use rkgw.ThinkingParser.Whole.{IsParsed, concat, ran, finished, with_config-IsReady, empty_text}
use rkgw.Streaming.Accumulator
use rkgw.Streaming.Accumulator.{ToolCallAccumulator, finalize_current}
use rkgw.Streaming.Events.{KiroEvent}
use rkgw.Streaming.Extract.{feed}
use rkgw.Streaming.Extract.Chunks.{
  prepend, then_events, whole, lossy_text, feed_all, feed_all-extract_all,
}
use rkgw.Streaming.Kiro.{
  Chunk, bytes, Yield, event, Parsers, start, route, process_jsons, yields, tool_yield, stream_from,
  streaming, parse_kiro_stream,
}
use rkgw.Streaming.Kiro.Routed.{thinking_of, regular_of, others_of, reasoning, Sent}
use rkgw.Streaming.Kiro.Content.{parse, process_jsons-run}
use rkgw.Streaming.Kiro.Spoken.{says, shows, outcome-shows}

abbrev pub all_bytes : List (List ℕ) → List Chunk
all_bytes [] = []
all_bytes (chunk ∷ chunks) = bytes chunk ∷ all_bytes chunks

abbrev Routed : Type 0
Routed = (ToolCallAccumulator × ThinkingParser) × List KiroEvent

abbrev with_events : List KiroEvent → Option Routed → Option Routed
with_events events none = none
with_events events (some (left, more)) = some (left, events ++ more)

abbrev routed_then :
    Option Routed → (ToolCallAccumulator → ThinkingParser → Option Routed) → Option Routed
routed_then none k = none
routed_then (some ((tools, p), events)) k = with_events events (k tools p)

with_events-append :
    (x y : List KiroEvent) (o : Option Routed)
    → with_events (x ++ y) o ≡ with_events x (with_events y o)
with_events-append x y none = refl
with_events-append x y (some (left, more)) = ap (λ l. some (left, l)) (append_assoc x y more)

with_events-nil : (o : Option Routed) → with_events [] o ≡ o
with_events-nil none = refl
with_events-nil (some (left, more)) = refl

with_events-routed_then :
    (x : List KiroEvent) (o : Option Routed)
    (k : ToolCallAccumulator → ThinkingParser → Option Routed)
    → with_events x (routed_then o k) ≡ routed_then (with_events x o) k
with_events-routed_then x none k = refl
with_events-routed_then x (some ((tools, p), y)) k = sym (with_events-append x y (k tools p))

abbrev event_then :
    Option (ThinkingParser × List KiroEvent) → (ThinkingParser → Option Routed) → Option Routed
event_then none k = none
event_then (some (p, events)) k = with_events events (k p)

bind_events :
    (events : List KiroEvent) (o : Option Routed)
    → ◌>>=◌ {B = Routed} o (λ (left, more). some (left, events ++ more)) ≡ with_events events o
bind_events events none = refl
bind_events events (some (left, more)) = refl

bind_event :
    (o : Option (ThinkingParser × List KiroEvent)) (k : ThinkingParser → Option Routed)
    → ◌>>=◌ {B = Routed} o (λ (p, events). k p >>= λ (left, more). some (left, events ++ more))
      ≡ event_then o k
bind_event none k = refl
bind_event (some (p, events)) k = bind_events events (k p)

yields-append : (x y : List KiroEvent) → yields (x ++ y) ≡ yields x ++ yields y
yields-append [] y = refl
yields-append (e ∷ x) y = ap (λ l. event e ∷ l) (yields-append x y)

sent_again :
    (events : List KiroEvent) {T R : Text}
    → thinking_of events ≡ T
    → regular_of events ≡ R
    → (q : ThinkingParser)
    → ◌≡◌ {A = Option Sent} (some (T, R, q)) (some (thinking_of events, regular_of events, q))
sent_again events {T} {R} t r q =
    ap (λ x. some (x, R, q)) (sym t) ∙ ap (λ y. some (thinking_of events, y, q)) (sym r)

read_again :
    (texts : List Text) (events : List KiroEvent) (q : ThinkingParser) (T R : Text)
    → thinking_of events ≡ T
    → regular_of events ≡ R
    → (let last = (ThinkingParser.finalize q).0 in
        IsParsed default_tags
          (concat texts)
          (T ++ unwrap_or last.thinking_content [])
          (R ++ unwrap_or last.regular_content [])
        → IsParsed default_tags
            (concat texts)
            (thinking_of events ++ unwrap_or last.thinking_content [])
            (regular_of events ++ unwrap_or last.regular_content []))
read_again texts events q T R t r h =
    let last = (ThinkingParser.finalize q).0 in
    subst
      (λ x.
        IsParsed default_tags (concat texts) (x ++ unwrap_or last.thinking_content [])
          (regular_of events ++ unwrap_or last.regular_content []))
      (sym t)
      (subst
        (λ y.
          IsParsed default_tags (concat texts) (T ++ unwrap_or last.thinking_content [])
            (y ++ unwrap_or last.regular_content []))
        (sym r) h)

module _ (from_text : Text → Option Json) (from_str : String → Option Json)
    (to_string : Json → String) (as_i64 : String → Option ℤ) (thousandfold : String → ℤ) where
  abbrev jsons_from : ToolCallAccumulator → ThinkingParser → List Json → Option Routed
  jsons_from = process_jsons from_text from_str to_string as_i64 thousandfold

  jsons_from-append :
      (a b : List Json) (tools : ToolCallAccumulator) (p : ThinkingParser)
      → jsons_from tools p (a ++ b) ≡ routed_then (jsons_from tools p a) (λ t q. jsons_from t q b)
  unfolding process_jsons
  jsons_from-append [] b tools p = sym (with_events-nil (jsons_from tools p b))
  jsons_from-append (json ∷ a) b tools p =
      let (next, parsed) = parse as_i64 thousandfold from_str to_string tools json in
      bind_event (route p parsed) (λ q. jsons_from next q (a ++ b))
      ∙ behind next (jsons_from-append a b next) (route p parsed)
      ∙ ap (λ o. routed_then o (λ t q. jsons_from t q b))
          (sym (bind_event (route p parsed) (λ q. jsons_from next q a)))
    where
      behind :
          (next : ToolCallAccumulator)
          → ((q : ThinkingParser)
              → jsons_from next q (a ++ b)
                ≡ routed_then (jsons_from next q a) (λ t r. jsons_from t r b))
          → (o : Option (ThinkingParser × List KiroEvent))
          → event_then o (λ q. jsons_from next q (a ++ b))
            ≡ routed_then (event_then o (λ q. jsons_from next q a)) (λ t q. jsons_from t q b)
      behind next later none = refl
      behind next later (some (q, events)) =
          ap (with_events events) (later q)
          ∙ with_events-routed_then events (jsons_from next q a) (λ t r. jsons_from t r b)

  abbrev stream_end : Option Routed → Option (List Yield)
  stream_end none = none
  stream_end (some ((tools, p), events)) =
      some (yields events ++ tool_yield (Accumulator.finalize from_str to_string tools).1)

  stream_end-with_events :
      (events : List KiroEvent) (o : Option Routed)
      → (stream_end o >>= λ later. some (yields events ++ later))
        ≡ stream_end (with_events events o)
  stream_end-with_events events none = refl
  stream_end-with_events events (some ((tools, p), more)) =
      let call = tool_yield (Accumulator.finalize from_str to_string tools).1 in
      ap some (
        sym (append_assoc (yields events) (yields more) call)
        ∙ ap (λ l. l ++ call) (sym (yields-append events more)))

  abbrev answer :
      ToolCallAccumulator → ThinkingParser → Option (List Json × Text) → Option (List Yield)
  answer tools p none = none
  answer tools p (some (jsons, rest)) = stream_end (jsons_from tools p jsons)

  -- A chunk whose values are processed, and the chunks behind it.
  processed_chunk :
      (tools : ToolCallAccumulator) (p : ThinkingParser) (jsons : List Json) (rest : Text)
      (later : Parsers → Option (List Yield)) (o : Option (List Json × Text))
      → ((t : ToolCallAccumulator) (q : ThinkingParser)
          → later (record { buffer = rest; tools = t; thinking = q }) ≡ answer t q o)
      → (r : Option Routed) → jsons_from tools p jsons ≡ r
      → (◌>>=◌ {B = List Yield}
            (◌>>=◌ {B = Parsers × List KiroEvent} r (λ ((t, q), events).
              some (record { buffer = rest; tools = t; thinking = q }, events)))
            (λ (next, events). later next >>= λ l. some (yields events ++ l))
          ≡ answer tools p (prepend jsons o))
  processed_chunk tools p jsons rest later none h none e = refl
  processed_chunk tools p jsons rest later none h (some ((t, q), events)) e =
      ap (λ o. o >>= λ l. some (yields events ++ l)) (h t q)
  processed_chunk tools p jsons rest later (some (more, left)) h none e = ap stream_end (
      sym (
        jsons_from-append jsons more tools p
        ∙ ap (λ o. routed_then o (λ t q. jsons_from t q more)) e))
  processed_chunk tools p jsons rest later (some (more, left)) h (some ((t, q), events)) e =
      ap (λ o. o >>= λ l. some (yields events ++ l)) (h t q)
      ∙ stream_end-with_events events (jsons_from t q more)
      ∙ ap stream_end (
          sym (
            jsons_from-append jsons more tools p
            ∙ ap (λ o. routed_then o (λ t q. jsons_from t q more)) e))

  stream_from-answer :
      (chunks : List (List ℕ)) (P : Parsers)
      → stream_from from_text from_str to_string as_i64 thousandfold P (all_bytes chunks)
        ≡ answer P.tools P.thinking (feed_all from_text P.buffer chunks)
  unfolding stream_from feed_all process_jsons
  stream_from-answer [] P = refl
  stream_from-answer (chunk ∷ chunks) P =
      fed (feed from_text P.buffer chunk) (stream_from-answer chunks)
    where
      parts : List Json × Text → Option (Parsers × List KiroEvent)
      parts (jsons, rest) = jsons_from P.tools P.thinking jsons >>= λ ((t, q), events).
          some (record { buffer = rest; tools = t; thinking = q }, events)

      fed :
          (o : Option (List Json × Text))
          → ((Q : Parsers)
              → stream_from from_text from_str to_string as_i64 thousandfold Q (all_bytes chunks)
                ≡ answer Q.tools Q.thinking (feed_all from_text Q.buffer chunks))
          → ◌>>=◌ {B = List Yield} (o >>= parts) (λ (next, events).
            stream_from from_text from_str to_string as_i64 thousandfold next (all_bytes chunks)
            >>= λ l. some (yields events ++ l))
            ≡ answer P.tools P.thinking (then_events o (λ rest. feed_all from_text rest chunks))
      fed none h = refl
      fed (some (jsons, rest)) h =
          processed_chunk P.tools P.thinking jsons rest
            (λ next.
              stream_from from_text from_str to_string as_i64 thousandfold next (all_bytes chunks))
            (feed_all from_text rest chunks)
            (λ t q. h (record { buffer = rest; tools = t; thinking = q }))
            (jsons_from P.tools P.thinking jsons) refl

  started :
      (chunks : List (List ℕ))
      → (stream_from from_text from_str to_string as_i64 thousandfold start (all_bytes chunks)
          >>= λ l. some (streaming l))
        ≡ (answer Accumulator.new ThinkingParser.new (whole from_text (lossy_text chunks)) >>= λ l.
            some (streaming l))
  unfolding start
  started chunks =
      ap (λ o. o >>= λ l. some (streaming l)) (stream_from-answer chunks start)
      ∙ ap (λ o. answer Accumulator.new ThinkingParser.new o >>= λ l. some (streaming l))
          (feed_all-extract_all from_text chunks)

  no_call : (Accumulator.finalize from_str to_string Accumulator.new).1 ≡ none
  unfolding Accumulator.finalize finalize_current
  no_call = refl

  whole_stream :
      (chunks : List (List ℕ))
      → parse_kiro_stream from_text from_str to_string as_i64 thousandfold false (all_bytes chunks)
        ≡ (answer Accumulator.new ThinkingParser.new (whole from_text (lossy_text chunks)) >>= λ l.
            some (streaming l))
  unfolding parse_kiro_stream stream_from
  whole_stream (chunk ∷ chunks) = started (chunk ∷ chunks)
  whole_stream [] = ap (λ call. some (streaming (tool_yield call))) (sym no_call) ∙ started []

  -- Where a stream's chunks are cut does not matter: the text of the chunks, each decoded by itself, says
  -- what the stream gives, or that it panics.
  pub parse_kiro_stream-lossy_text :
      (chunks other : List (List ℕ))
      → lossy_text chunks ≡ lossy_text other
      → parse_kiro_stream from_text from_str to_string as_i64 thousandfold false (all_bytes chunks)
        ≡ parse_kiro_stream from_text from_str to_string as_i64 thousandfold false (all_bytes other)
  parse_kiro_stream-lossy_text chunks other same =
      whole_stream chunks
      ∙ ap
          (λ t. answer Accumulator.new ThinkingParser.new (whole from_text t) >>= λ l.
            some (streaming l))
          same
      ∙ sym (whole_stream other)

  streamed :
      (chunks : List (List ℕ)) (jsons : List Json) (rest : Text) (left : ToolCallAccumulator)
      (q : ThinkingParser) (events : List KiroEvent)
      → whole from_text (lossy_text chunks) ≡ some (jsons, rest)
      → jsons_from Accumulator.new ThinkingParser.new jsons ≡ some ((left, q), events)
      → parse_kiro_stream from_text from_str to_string as_i64 thousandfold false (all_bytes chunks)
        ≡ some (
            streaming
              (yields events ++ tool_yield (Accumulator.finalize from_str to_string left).1))
  streamed chunks jsons rest left q events found processed =
      whole_stream chunks
      ∙ ap (λ o. answer Accumulator.new ThinkingParser.new o >>= λ l. some (streaming l)) found
      ∙ ap (λ o. stream_end o >>= λ l. some (streaming l)) processed

  -- Where the text of a stream's chunks does not make the event parser panic, the stream does not panic,
  -- and yields events and then the tool call that is left. Of the events, those that are neither text nor
  -- thinking are those that the JSON values show, in their order: a tool call where its pieces are
  -- complete, and the measures of the usage; the call that is left is what the accumulator holds behind
  -- them. The thinking content and the regular content of the others are what a thinking parser sends
  -- for the texts that the values say; with what it still holds then, they are what the whole text is
  -- read as.
  pub parse_kiro_stream-IsParsed :
      (chunks : List (List ℕ)) (jsons : List Json) (rest : Text)
      → whole from_text (lossy_text chunks) ≡ some (jsons, rest)
      → let texts = says as_i64 thousandfold jsons in
        let (left, shown) = shows as_i64 thousandfold from_str to_string Accumulator.new jsons in
        (events : List KiroEvent) × (q : ThinkingParser) × (parse_kiro_stream from_text from_str
            to_string as_i64 thousandfold false
            (all_bytes chunks)
          ≡ some (
              streaming
                (yields events ++ tool_yield (Accumulator.finalize from_str to_string left).1)))
        × (others_of events ≡ shown)
        × (run ThinkingParser.new texts ≡ some (thinking_of events, regular_of events, q))
        × (let last = (ThinkingParser.finalize q).0 in
            IsParsed default_tags
              (concat texts)
              (thinking_of events ++ unwrap_or last.thinking_content [])
              (regular_of events ++ unwrap_or last.regular_content []))
  unfolding ThinkingParser.new with_config
  parse_kiro_stream-IsParsed chunks jsons rest found =
      let p = ThinkingParser.new in
      let texts = says as_i64 thousandfold jsons in
      let (T, R, q, e, progress, tags) =
        ran p (with_config-IsReady reasoning 20) texts [] [] []
          (before refl (refl, refl) empty_text.0) in
      let (same_texts, same_events) =
        outcome-shows as_i64 thousandfold from_str to_string jsons Accumulator.new in
      let (left, events, processed, t, r, made) =
        process_jsons-run as_i64 thousandfold from_str to_string from_text jsons Accumulator.new p q
          T R refl (ap (run p) same_texts ∙ e) in
      let behind = sym made ∙ same_events in
      (
        events,
        q,
        streamed chunks jsons rest left q events found processed
            ∙ ap
                (λ (o : ToolCallAccumulator × List KiroEvent). some (
                  streaming
                    (yields events ++ tool_yield (Accumulator.finalize from_str to_string o.0).1)))
                behind,
        ap (λ (o : ToolCallAccumulator × List KiroEvent). o.1) behind,
        e ∙ sent_again events t r q,
        read_again texts events q T R t r (
            subst
              (λ l.
                IsParsed l (concat texts)
                  (T ++ unwrap_or (ThinkingParser.finalize q).0.thinking_content [])
                  (R ++ unwrap_or (ThinkingParser.finalize q).0.regular_content []))
              tags (finished q (concat texts) T R progress)),
      )

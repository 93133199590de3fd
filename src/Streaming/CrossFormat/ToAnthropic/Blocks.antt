-- ===== src/Streaming/CrossFormat/ToAnthropic/Blocks.antt =====
-- What a reader of Anthropic's streams may expect of the events: blocks are numbered from 0, are open
-- while they are written to, and are closed before the message stops.
use rkgw.Base.{
  ℕ, suc, ◌+◌, ◌*◌, ◌≤◌, ◌<◌, String, Bool, true, false, ◌&&◌, not, List, [], ◌∷◌, ◌++◌, Option,
  none, some, eqb, if◌then◌else◌, ◌==◌, is_empty, length, ◌>>=◌, ◌≡◌, refl, ap, ◌∙◌, subst, arith,
  Bool-cases, Option-cases, inl, inr, ◌||◌, any,
}
use rkgw.Base.Int.{ℤ, pos, negsuc, int_eq, int_beq}
use rkgw.Base.Maps.{Map, lookup, insert, remove_absent}
use rkgw.Base.Text.{is_empty_str}
use rkgw.Converters.Messages.{Json}
use rkgw.Streaming.CrossFormat.{
  ToolCallDelta, text_delta, StreamEvent, message_start, content_block_start, content_block_delta,
  content_block_stop, message_delta, message_stop, ping,
}
use rkgw.Streaming.CrossFormat.ToAnthropic.{
  OpenaiToAnthropicState, bump, indices, stops, open_text, push_text, close_text, arguments_of,
  argument_events, tool_content, start_tool, push_tool, push_tools,
}

pub record Reader : Type 0 where
  pub started : Bool
  pub stopped : Bool
  pub next : ℕ
  pub opened : List ℤ

abbrev pub fresh_reader : Reader
fresh_reader = record { started = false; stopped = false; next = 0; opened = [] }

abbrev pub is_open : ℤ → List ℤ → Bool
is_open i is = any (λ j. int_beq j i) is

abbrev pub without : ℤ → List ℤ → List ℤ
without i [] = []
without i (j ∷ is) = let rest = without i is in if int_beq j i then is else j ∷ rest

abbrev pub is_running : Reader → Bool
is_running r = r.started && not r.stopped

abbrev pub guard : Bool → Reader → Option Reader
guard true r = some r
guard false r = none

-- One event; none where it may not stand.
unfoldable pub read : Reader → StreamEvent → Option Reader
read r (message_start message) = guard (not r.started) (record r { started = true })
read r (content_block_start i block) =
    guard (is_running r && int_beq i (pos r.next))
      (record r { next = suc r.next; opened = i ∷ r.opened })
read r (content_block_delta i delta) = guard (is_running r && is_open i r.opened) r
read r (content_block_stop i) =
    guard (is_running r && is_open i r.opened) (record r { opened = without i r.opened })
read r (message_delta delta usage) = guard (is_running r) r
read r message_stop = guard (is_running r && is_empty r.opened) (record r { stopped = true })
read r ping = some r

unfoldable pub read_all : Reader → List StreamEvent → Option Reader
unfolding read
read_all r [] = some r
read_all r (e ∷ events) = read r e >>= λ next. read_all next events

pub read_all-append :
    (r mid : Reader) (x y : List StreamEvent)
    → read_all r x ≡ some mid
    → read_all r (x ++ y) ≡ read_all mid y
unfolding read_all
read_all-append r mid [] y h = ap (λ o. o >>= λ a. read_all a y) h
read_all-append r mid (e ∷ x) y h = elim (Option-cases (read r e)) [
  | inl f ↦ absurd (cc (rw (f, read_all) at h))
  | inr (a, f) ↦ rw (f, read_all) (read_all-append a mid x y (rw (f, read_all) at h))
]

int_beq_refl : (i : ℤ) → int_beq i i ≡ true
int_beq_refl (pos n) = ground arith
int_beq_refl (negsuc n) = ground arith

-- The blocks that a state has open: the text's first, then those of tools.
abbrev pub open_blocks : OpenaiToAnthropicState → List ℤ
open_blocks s =
    let tools = indices s.tool_block_indices in
    if s.has_started_text_block then s.content_block_index ∷ tools else tools

abbrev pub next_block : Bool → ℕ → ℕ
next_block true n = suc n
next_block false n = n

-- The reader behind the events of a state whose index is n.
abbrev pub reader_of : Bool → Bool → List ℤ → ℕ → Reader
reader_of started text opened n = record {
  started = started;
  stopped = false;
  next = next_block text n;
  opened = opened;
}

abbrev pub reader_at : OpenaiToAnthropicState → ℕ → Reader
reader_at s n = reader_of s.has_started_message s.has_started_text_block (open_blocks s) n

-- What events do to the reader of a state, when they lead to another.
abbrev pub Leads :
    OpenaiToAnthropicState → ℕ → ℕ → OpenaiToAnthropicState → List StreamEvent → Type 0
Leads s n more t events =
    (m : ℕ) × (t.content_block_index ≡ pos m)
    × (m ≤ n + more)
    × (t.has_started_message ≡ true)
    × (read_all (reader_at s n) events ≡ some (reader_at t m))

pub Leads-append :
    (s t u : OpenaiToAnthropicState) (n k k' : ℕ) (x y : List StreamEvent)
    → Leads s n k t x
    → ((m : ℕ)
        → t.content_block_index ≡ pos m
        → m ≤ n + k
        → t.has_started_message ≡ true
        → Leads t m k' u y)
    → Leads s n (k + k') u (x ++ y)
Leads-append s t u n k k' x y (m, at, small, started, h) later =
    let (m', at', small', started', h') = later m at small started in
    (m', at', omega arith, started', read_all-append (reader_at s n) (reader_at t m) x y h ∙ h')

bump_small : (n : ℕ) → n < 2147483647 → bump (pos n) ≡ pos (suc n)
unfolding bump
bump_small n h = let small : eqb n 2147483647 ≡ false = ground arith in rw (small, bump) refl

self : (n : ℕ) → eqb n n ≡ true
self n = ground arith

-- Writing to a block that is open.
arguments-read :
    (text : Bool) (is : List ℤ) (n : ℕ) (i : ℤ) (args : Option String)
    → is_open i is ≡ true
    → read_all (reader_of true text is n) (argument_events i args) ≡ some (reader_of true text is n)
unfolding read_all
arguments-read text is n i none found = refl
arguments-read text is n i (some args) found = elim (Bool-cases (is_empty_str args)) [
  | inl e ↦ rw e refl
  | inr e ↦ rw e (rw (found, read) refl)
]

abbrev pub blocks : Bool → ℕ → List ℤ → List ℤ
blocks text n tools = if text then pos n ∷ tools else tools

text_read :
    (text : Bool) (n : ℕ) (tools : List ℤ) (content : String)
    → read_all
        (reader_of true text (blocks text n tools) n)
        (open_text text (pos n) (content_block_delta (pos n) (text_delta content) ∷ []))
      ≡ some (reader_of true true (pos n ∷ tools) n)
unfolding read_all
text_read true n tools content = rw (self n, read) refl
text_read false n tools content = rw (self n, read) (rw (self n, read) refl)

abbrev close_events : Bool → ℕ → List StreamEvent
close_events text n = if text then content_block_stop (pos n) ∷ [] else []

close_read :
    (text : Bool) (n : ℕ) (tools : List ℤ)
    → read_all (reader_of true text (blocks text n tools) n) (close_events text n)
      ≡ some (reader_of true false tools (next_block text n))
unfolding read_all
close_read true n tools = rw (self n, read) refl
close_read false n tools = refl

start_read :
    (n : ℕ) (tools : List ℤ) (block : Json) (args : Option String)
    → read_all
        (reader_of true false tools n)
        (content_block_start (pos n) block ∷ argument_events (pos n) args)
      ≡ some (reader_of true false (pos n ∷ tools) (suc n))
unfolding read_all
start_read n tools block args =
    rw (self n, read) (arguments-read false (pos n ∷ tools) (suc n) (pos n) args (rw (self n) refl))

stops_read :
    (is : List ℤ) (text : Bool) (n : ℕ)
    → read_all (reader_of true text is n) (stops is) ≡ some (reader_of true text [] n)
unfolding read_all
stops_read [] text n = refl
stops_read (i ∷ is) text n = rw (int_beq_refl i, read) (stops_read is text n)

pub stop_read :
    (text : Bool) (n : ℕ) (tools : List ℤ)
    → read_all
        (reader_of true text (blocks text n tools) n)
        (if text then content_block_stop (pos n) ∷ stops tools else stops tools)
      ≡ some (reader_of true text [] n)
unfolding read_all
stop_read true n tools = rw (self n, read) (stops_read tools true n)
stop_read false n tools = stops_read tools false n

or_true : (b : Bool) → (b || true) ≡ true
or_true true = refl
or_true false = refl

-- A block that a tool call has is open.
found_open : (k i : ℤ) (m : Map ℤ ℤ) → lookup k m ≡ some i → is_open i (indices m) ≡ true
unfolding lookup
found_open k i [] h = absurd (cc)
found_open k i ((j, v) ∷ m) h = elim (Bool-cases (j == k)) [
  | inl e ↦
      rw (ap (λ (x : Option ℤ). elim x as (λ _. ℤ) [ none ↦ i | some y ↦ y ]) (rw e at h))
        (rw (int_beq_refl i) refl)
  | inr e ↦ rw (found_open k i m (rw e at h)) (or_true (int_beq v i))
]

indices-insert :
    (k v : ℤ) (m : Map ℤ ℤ) → lookup k m ≡ none → indices (insert k v m) ≡ v ∷ indices m
unfolding insert
indices-insert k v m h = ap (λ l. v ∷ indices l) (remove_absent k m h)

pub push_text-Leads :
    (s : OpenaiToAnthropicState) (n : ℕ) (content : Option String)
    → s.content_block_index ≡ pos n
    → s.has_started_message ≡ true
    → let (t, events) = push_text s content in Leads s n 0 t events
unfolding push_text read_all
push_text-Leads s n none at started = (n, at, omega arith, started, refl)
push_text-Leads s n (some content) at started = elim (Bool-cases (is_empty_str content)) [
  | inl e ↦ rw (e, push_text) (n, at, omega arith, started, refl)
  | inr e ↦
      rw (e, push_text)
        (
          n,
          at,
          omega arith,
          started,
          rw (at, started)
              (text_read s.has_started_text_block n (indices s.tool_block_indices) content),
        )
]

pub nil_read : (r : Reader) → read_all r [] ≡ some r
unfolding read_all
nil_read r = refl

close_text-Leads :
    (s : OpenaiToAnthropicState) (n : ℕ)
    → s.content_block_index ≡ pos n
    → s.has_started_message ≡ true
    → n + 2 ≤ 2147483648
    → let (t, events) = close_text s in
      Leads s n 1 t events
      × (t.has_started_text_block ≡ false)
      × (t.tool_block_indices ≡ s.tool_block_indices)
unfolding close_text
close_text-Leads s n at started small = elim (Bool-cases s.has_started_text_block) [
  | inl e ↦
      rw (e, close_text)
        (
          (
            suc n,
            ap bump at ∙ bump_small n (omega arith),
            omega arith,
            started,
            rw (at, started) (close_read true n (indices s.tool_block_indices)),
          ),
          refl,
          refl,
        )
  | inr e ↦
      rw (e, close_text)
        (
          (
            n,
            at,
            omega arith,
            started,
            nil_read (reader_of s.has_started_message false (indices s.tool_block_indices) n),
          ),
          refl,
          refl,
        )
]

module _ (simple_uuid : ℤ → String) (print_i32 : ℤ → String) where
  opened_tool-Leads :
      (c : OpenaiToAnthropicState) (n : ℕ) (tc : ToolCallDelta)
      → c.content_block_index ≡ pos n
      → c.has_started_message ≡ true
      → c.has_started_text_block ≡ false
      → lookup tc.index c.tool_block_indices ≡ none
      → n + 1 ≤ 2147483647
      → let index = c.content_block_index in
        Leads c n 1
          (record c {
            content_block_index = bump index;
            tool_block_indices = insert tc.index index c.tool_block_indices;
          })
          (content_block_start index (tool_content simple_uuid print_i32 index tc)
            ∷ argument_events index (arguments_of tc))
  opened_tool-Leads c n tc at started idle absent small = (
    suc n,
    ap bump at ∙ bump_small n (omega arith),
    omega arith,
    started,
    rw (at, started, idle, indices-insert tc.index (pos n) c.tool_block_indices absent)
        (start_read n (indices c.tool_block_indices) (tool_content simple_uuid print_i32 (pos n) tc)
          (arguments_of tc)),
  )

  start_tool-Leads :
      (s : OpenaiToAnthropicState) (n : ℕ) (tc : ToolCallDelta)
      → s.content_block_index ≡ pos n
      → s.has_started_message ≡ true
      → lookup tc.index s.tool_block_indices ≡ none
      → n + 2 ≤ 2147483647
      → let (t, events) = start_tool simple_uuid print_i32 s tc in Leads s n 2 t events
  unfolding start_tool
  start_tool-Leads s n tc at started absent small =
      let (closed, events) = close_text s in
      let (leads, idle, same) = close_text-Leads s n at started (omega arith) in
      let index = closed.content_block_index in
      Leads-append s closed (start_tool simple_uuid print_i32 s tc).0 n 1 1 events
        (content_block_start index (tool_content simple_uuid print_i32 index tc)
          ∷ argument_events index (arguments_of tc))
        leads
        (λ m at' small' started'.
          opened_tool-Leads closed m tc at' started' idle (ap (lookup tc.index) same ∙ absent)
            (omega arith))

  push_tool-Leads :
      (s : OpenaiToAnthropicState) (n : ℕ) (tc : ToolCallDelta)
      → s.content_block_index ≡ pos n
      → s.has_started_message ≡ true
      → n + 2 ≤ 2147483647
      → let (t, events) = push_tool simple_uuid print_i32 s tc in Leads s n 2 t events
  unfolding push_tool
  push_tool-Leads s n tc at started small =
      elim (Option-cases (lookup tc.index s.tool_block_indices)) [
        | inl e ↦ rw (e, push_tool) (start_tool-Leads s n tc at started e small)
        | inr (i, e) ↦
            rw (e, push_tool)
              (
                n,
                at,
                omega arith,
                started,
                rw started (
                    arguments-read s.has_started_text_block (open_blocks s) n i (arguments_of tc)
                      (still_open s.has_started_text_block i e)),
              )
      ]
    where
      still_open :
          (text : Bool) (i : ℤ)
          → lookup tc.index s.tool_block_indices ≡ some i
          → is_open i (
              if text
              then s.content_block_index ∷ indices s.tool_block_indices
              else indices s.tool_block_indices)
            ≡ true
      still_open true i e =
          rw (found_open tc.index i s.tool_block_indices e)
            (or_true (int_beq s.content_block_index i))
      still_open false i e = found_open tc.index i s.tool_block_indices e

  pub push_tools-Leads :
      (tool_calls : List ToolCallDelta) (s : OpenaiToAnthropicState) (n : ℕ)
      → s.content_block_index ≡ pos n
      → s.has_started_message ≡ true
      → n + 2 * length tool_calls ≤ 2147483647
      → let (t, events) = push_tools simple_uuid print_i32 s tool_calls in
        Leads s n (2 * length tool_calls) t events
  unfolding push_tools read_all
  push_tools-Leads [] s n at started small = (n, at, omega arith, started, refl)
  push_tools-Leads (tc ∷ tool_calls) s n at started small =
      let (next, events) = push_tool simple_uuid print_i32 s tc in
      let (last, more) = push_tools simple_uuid print_i32 next tool_calls in
      subst (λ k. Leads s n k last (events ++ more)) (omega arith)
        (Leads-append s next last n 2 (2 * length tool_calls) events more
          (push_tool-Leads s n tc at started (omega arith))
          (λ m at' small' started'. push_tools-Leads tool_calls next m at' started' (omega arith)))

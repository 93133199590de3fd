-- ===== src/Streaming/Kiro/Routed.antt =====
-- One event on its way through the thinking parser.
use rkgw.Base.{
  ◌||◌, String, false, List, [], ◌∷◌, ◌++◌, Option, none, some, ◌==◌, if◌then◌else◌, unwrap_or,
  string_eq, ◌>>=◌, ◌≡◌, refl, ap, sym, ◌∙◌, subst, append_assoc, append-nil, Bool-cases,
  Option-cases, inl, inr, is_empty,
}
use rkgw.Base.Chars.{Text}
use rkgw.ThinkingParser
use rkgw.ThinkingParser.{ThinkingParser, ThinkingParseResult, process_for_output, run}
use rkgw.ThinkingParser.Mode.{KeepsMode, feed-KeepsMode}
use rkgw.Streaming.Events.{KiroEvent}
use rkgw.Streaming.Kiro.{push_thinking, push_regular, split_content, route_event, route}

-- The thinking content and the regular content in events.
abbrev pub thinking_of : List KiroEvent → Text
thinking_of [] = []
thinking_of (e ∷ events) =
    let rest = thinking_of events in
    if e.event_type == "thinking" then unwrap_or e.thinking_content [] ++ rest else rest

abbrev pub regular_of : List KiroEvent → Text
regular_of [] = []
regular_of (e ∷ events) =
    let rest = regular_of events in
    if e.event_type == "content" then unwrap_or e.content [] ++ rest else rest

-- The events that carry neither.
abbrev pub others_of : List KiroEvent → List KiroEvent
others_of [] = []
others_of (e ∷ events) =
    let rest = others_of events in
    if (e.event_type == "thinking") || (e.event_type == "content") then rest else e ∷ rest

pub others_of-append : (x y : List KiroEvent) → others_of (x ++ y) ≡ others_of x ++ others_of y
others_of-append [] y = refl
others_of-append (e ∷ x) y =
    elim (Bool-cases ((e.event_type == "thinking") || (e.event_type == "content"))) [
      | inl is ↦ rw is (others_of-append x y)
      | inr other ↦ rw other (ap (λ l. e ∷ l) (others_of-append x y))
    ]

pub thinking_of-append :
    (x y : List KiroEvent) → thinking_of (x ++ y) ≡ thinking_of x ++ thinking_of y
thinking_of-append [] y = refl
thinking_of-append (e ∷ x) y = elim (Bool-cases (e.event_type == "thinking")) [
  | inl is ↦ rw is (
      ap (λ t. unwrap_or e.thinking_content [] ++ t) (thinking_of-append x y)
      ∙ sym (append_assoc (unwrap_or e.thinking_content []) (thinking_of x) (thinking_of y)))
  | inr other ↦ rw other (thinking_of-append x y)
]

pub regular_of-append : (x y : List KiroEvent) → regular_of (x ++ y) ≡ regular_of x ++ regular_of y
regular_of-append [] y = refl
regular_of-append (e ∷ x) y = elim (Bool-cases (e.event_type == "content")) [
  | inl is ↦ rw is (
      ap (λ t. unwrap_or e.content [] ++ t) (regular_of-append x y)
      ∙ sym (append_assoc (unwrap_or e.content []) (regular_of x) (regular_of y)))
  | inr other ↦ rw other (regular_of-append x y)
]

abbrev pub reasoning : String
reasoning = "as_reasoning_content"

-- A parser in the mode of the streams sends on what it has found, piece by piece.
split_content-text :
    (result : ThinkingParseResult) (p : ThinkingParser)
    → p.handling_mode ≡ reasoning
    → (thinking_of (split_content (result, p)) ≡ unwrap_or result.thinking_content [])
      × (regular_of (split_content (result, p)) ≡ unwrap_or result.regular_content [])
unfolding split_content process_for_output
split_content-text result p mode = rw mode (pieces result.thinking_content result.regular_content)
  where
    pieces :
        (thinking regular : Option Text)
        → (thinking_of (
              push_thinking result
                (thinking >>= λ t. if is_empty t then none else some t)
                (push_regular regular []))
            ≡ unwrap_or thinking [])
          × (regular_of (
                push_thinking result
                  (thinking >>= λ t. if is_empty t then none else some t)
                  (push_regular regular []))
              ≡ unwrap_or regular [])
    pieces none none = (refl, refl)
    pieces none (some r) = (refl, append-nil r)
    pieces (some []) none = (refl, refl)
    pieces (some []) (some r) = (refl, append-nil r)
    pieces (some (c ∷ t)) none = (append-nil (c ∷ t), refl)
    pieces (some (c ∷ t)) (some r) = (append-nil (c ∷ t), append-nil r)

-- Such a parser makes no other event.
split_content-others :
    (result : ThinkingParseResult) (p : ThinkingParser) → others_of (split_content (result, p)) ≡ []
unfolding split_content process_for_output
split_content-others result p =
    pieces
      (result.thinking_content >>= λ t.
        process_for_output p t result.is_first_thinking_chunk result.is_last_thinking_chunk)
      result.regular_content
  where
    pieces :
        (thinking regular : Option Text)
        → others_of (push_thinking result thinking (push_regular regular [])) ≡ []
    pieces none none = refl
    pieces none (some r) = refl
    pieces (some t) none = refl
    pieces (some t) (some r) = refl

-- The parsed event is none of the thinking parser's.
abbrev pub IsParsedEvent : Option KiroEvent → Type 0
IsParsedEvent none = Unit
IsParsedEvent (some e) = (e.event_type == "thinking") ≡ false

abbrev pub Sent : Type 0
Sent = Text × Text × ThinkingParser

pub sent_parts :
    (a b T R : Text) (c q : ThinkingParser)
    → ◌≡◌ {A = Option Sent} (some (a, b, c)) (some (T, R, q))
    → (T ≡ a) × (R ≡ b) × (c ≡ q)
sent_parts a b T R c q e = (cc, cc, cc)

run-inversion :
    (p q : ThinkingParser) (t : Text) (texts : List Text) (T R : Text)
    → run p (t ∷ texts) ≡ some (T, R, q)
    → (result : ThinkingParseResult) × (p' : ThinkingParser) × (T' : Text) × (R' : Text)
      × (ThinkingParser.feed p t ≡ some (result, p'))
      × (run p' texts ≡ some (T', R', q))
      × (T ≡ unwrap_or result.thinking_content [] ++ T')
      × (R ≡ unwrap_or result.regular_content [] ++ R')
unfolding run
run-inversion p q t texts T R h = elim (Option-cases (ThinkingParser.feed p t)) [
  | inl e ↦ absurd (cc (rw (e, run) at h))
  | inr ((result, p'), e) ↦ elim (Option-cases (run p' texts)) [
    | inl f ↦ absurd (cc (rw f at (rw (e, run) at h)))
    | inr ((T', R', q'), f) ↦
        let (x, y, z) =
          sent_parts (unwrap_or result.thinking_content [] ++ T')
            (unwrap_or result.regular_content [] ++ R') T R q' q (rw f at (rw (e, run) at h)) in
        (result, p', T', R', e, f ∙ ap (λ (c : ThinkingParser). some (T', R', c)) z, x, y)
  ]
]

abbrev pub push_content : Option KiroEvent → List Text → List Text
push_content none texts = texts
push_content (some e) texts =
    if e.event_type == "content"
    then elim e.content [ none ↦ texts | some t ↦ t ∷ texts ]
    else texts

-- The parsed event, where it is not text.
abbrev pub other_part : Option KiroEvent → List KiroEvent
other_part none = []
other_part (some e) = if e.event_type == "content" then [] else e ∷ []

pub routed :
    (parsed : Option KiroEvent) (p q : ThinkingParser) (texts : List Text) (T R : Text)
    → IsParsedEvent parsed
    → p.handling_mode ≡ reasoning
    → run p (push_content parsed texts) ≡ some (T, R, q)
    → (p' : ThinkingParser) × (events : List KiroEvent) × (T' : Text) × (R' : Text) × (route p
          parsed
        ≡ some (p', events))
      × (p'.handling_mode ≡ reasoning)
      × (run p' texts ≡ some (T', R', q))
      × (T ≡ thinking_of events ++ T')
      × (R ≡ regular_of events ++ R')
      × (others_of events ≡ other_part parsed)
unfolding route_event
routed none p q texts T R plain mode h = (p, [], T, R, refl, mode, h, refl, refl, refl)
routed (some e) p q texts T R plain mode h = elim (Bool-cases (e.event_type == "content")) [
  | inl is ↦ elim (Option-cases e.content) [
    | inl empty ↦ (
      p,
      [],
      T,
      R,
      rw is (rw (empty, route_event) refl),
      mode,
      rw empty at (rw is at h),
      refl,
      refl,
      rw is refl,
    )
    | inr (t, found) ↦
        let (result, p', T', R', fed, later, x, y) =
          run-inversion p q t texts T R (rw found at (rw is at h)) in
        let kept : p'.handling_mode ≡ p.handling_mode = mode_of p t result p' fed in
        let (a, b) = split_content-text result p' (kept ∙ mode) in
        (
          p',
          split_content (result, p'),
          T',
          R',
          rw is (rw found (rw fed refl)),
          kept ∙ mode,
          later,
          x ∙ ap (λ l. l ++ T') (sym a),
          y ∙ ap (λ l. l ++ R') (sym b),
          rw is (split_content-others result p'),
        )
  ]
  | inr other ↦ (
    p,
    e ∷ [],
    T,
    R,
    rw other refl,
    mode,
    rw other at h,
    rw plain refl,
    rw other refl,
    rw (plain, other) refl,
  )
]
  where
    mode_of :
        (p : ThinkingParser) (t : Text) (result : ThinkingParseResult) (p' : ThinkingParser)
        → ThinkingParser.feed p t ≡ some (result, p')
        → p'.handling_mode ≡ p.handling_mode
    mode_of p t result p' e = subst (KeepsMode p) e (feed-KeepsMode p t)

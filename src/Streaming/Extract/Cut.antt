-- ===== src/Streaming/Extract/Cut.antt =====
-- What a buffer gives up does not change when more text arrives.
use rkgw.Base.{
  ◌<◌, Bool, true, false, List, [], ◌∷◌, ◌++◌, Option, none, some, any, All, eqb, length,
  length-append, ◌≡◌, inl, inr, refl, ap, sym, ◌∙◌, subst, Bool-cases, arith,
}
use rkgw.Base.Chars.{Text, starts_with}
use rkgw.Streaming.Extract.{
  event_patterns, Scan, scan_start, scan_step, opens, panicked, extracted, extract,
}
use rkgw.Streaming.Extract.Located.{
  push_before, push_before-some, locate, locate_cases, locate_split, match_brace, match_brace_split,
  between_braces, as_extraction, from_located, extract-located,
}

-- Whether a closing brace stands in the text.
abbrev closes : Text → Bool
closes s = any (λ c. eqb c 125) s

starts_with-append_lem :
    (s y p : Text) → closes s ≡ true → closes p ≡ false → starts_with (s ++ y) p ≡ starts_with s p
unfolding starts_with
starts_with-append_lem s y [] h k = refl
starts_with-append_lem [] y (d ∷ p) h k = absurd (cc)
starts_with-append_lem (c ∷ s) y (d ∷ p) h k = ground (arith, starts_with-append_lem s y p)

any_starts :
    (s y : Text) (patterns : List Text)
    → closes s ≡ true
    → All (λ p. closes p ≡ false) patterns
    → any (starts_with (s ++ y)) patterns ≡ any (starts_with s) patterns
any_starts s y [] h k = refl
any_starts s y (p ∷ patterns) h (one, k) =
    rw (starts_with-append_lem s y p h one, any_starts s y patterns h k) refl

closes-append : (s y : Text) → closes y ≡ true → closes (s ++ y) ≡ true
closes-append [] y h = h
closes-append (c ∷ s) y h = ground (arith, closes-append s y h)

locate-append :
    (patterns : List Text) (s before rest y : Text)
    → All (λ p. closes p ≡ false) patterns
    → locate patterns s ≡ some (before, rest)
    → closes rest ≡ true
    → locate patterns (s ++ y) ≡ some (before, rest ++ y)
unfolding locate
locate-append patterns [] before rest y k h has =
    elim (Bool-cases (any (starts_with []) patterns)) [
      | inl e ↦
          let here : some ([], []) ≡ some (before, rest) = rw e at h in
          let r : rest ≡ [] = cc in absurd (cc (rw r at has))
      | inr e ↦ absurd (cc (rw e at h))
    ]
locate-append patterns (c ∷ s) before rest y k h has =
    let whole = locate_split patterns (c ∷ s) before rest h in
    let same =
      any_starts (c ∷ s) y patterns
        (subst (λ t. closes t ≡ true) (sym whole) (closes-append before rest has)) k in
    elim (locate_cases patterns c s before rest h) [
      | inl (e, b, r) ↦ rw (same, e) (rw (b, r) refl)
      | inr (e, (b, found, shorter)) ↦
          rw (same, e)
            (rw shorter (ap (push_before c) (locate-append patterns s b rest y k found has)))
    ]

match_brace-append :
    (st : Scan) (s inside after y : Text)
    → match_brace st s ≡ some (inside, after)
    → match_brace st (s ++ y) ≡ some (inside, after ++ y)
unfolding match_brace
match_brace-append st [] inside after y h = absurd (cc)
match_brace-append st (c ∷ s) inside after y h = elim (Bool-cases (scan_step st c).0) [
  | inl e ↦
      let here : some ([], s) ≡ some (inside, after) = rw e at h in
      let b : [] ≡ inside = cc in let r : s ≡ after = cc in rw (e, ← b, ← r) refl
  | inr e ↦
      let (b, found, same) =
        push_before-some c (match_brace (scan_step st c).1 s) inside after (rw e at h) in
      rw (e, same) (ap (push_before c) (match_brace-append (scan_step st c).1 s b after y found))
]

-- The parts of a text that an event is taken from.
record Parts (s json_str rest : Text) : Type 0 where
  before : Text
  event_on : Text
  inside : Text
  found : locate event_patterns s ≡ some (before, event_on)
  opened : opens event_on ≡ true
  matched : match_brace scan_start event_on ≡ some (inside, rest)
  json_is : json_str ≡ inside ++ (125 ∷ [])

extract-Parts :
    (s json_str rest : Text) → extract s ≡ extracted json_str rest → Parts s json_str rest
extract-Parts s json_str rest h = at (locate event_patterns s) refl (sym (extract-located s) ∙ h)
  where
    braces :
        (before event_on : Text) (o : Option (Text × Text))
        → locate event_patterns s ≡ some (before, event_on)
        → opens event_on ≡ true
        → match_brace scan_start event_on ≡ o
        → as_extraction o ≡ extracted json_str rest
        → Parts s json_str rest
    braces before event_on none e f g h = absurd (cc)
    braces before event_on (some (inside, after)) e f g h = record {
      before = before;
      event_on = event_on;
      inside = inside;
      found = e;
      opened = f;
      matched = g ∙ ap (λ t. some (inside, t)) (cc);
      json_is = cc;
    }

    at :
        (o : Option (Text × Text))
        → locate event_patterns s ≡ o
        → from_located o ≡ extracted json_str rest
        → Parts s json_str rest
    at none e h = absurd (cc)
    at (some (before, event_on)) e h = elim (Bool-cases (opens event_on)) [
      | inl f ↦ braces before event_on (match_brace scan_start event_on) e f refl (rw f at h)
      | inr f ↦ absurd (cc (rw f at h))
    ]

Parts-extract :
    (s json_str rest : Text) → Parts s json_str rest → extract s ≡ extracted json_str rest
Parts-extract s json_str rest p =
    extract-located s
    ∙ ap from_located p.found
    ∙ rw p.opened (ap as_extraction p.matched ∙ ap (λ j. extracted j rest) (sym p.json_is))

opens-append : (s y : Text) → opens s ≡ true → opens (s ++ y) ≡ true
opens-append [] y h = absurd (cc)
opens-append (c ∷ s) y h = h

patterns_open : All (λ p. closes p ≡ false) event_patterns
patterns_open = (refl, (refl, (refl, (refl, (refl, (refl, (refl, tt)))))))

closing_brace : (inside rest : Text) → closes (inside ++ (125 ∷ rest)) ≡ true
closing_brace inside rest = closes-append inside (125 ∷ rest) refl

-- An event that is whole is taken in the same way when more text stands behind it.
pub extract-append :
    (s json_str rest y : Text)
    → extract s ≡ extracted json_str rest
    → extract (s ++ y) ≡ extracted json_str (rest ++ y)
extract-append s json_str rest y h =
    let p = extract-Parts s json_str rest h in
    let brace = match_brace_split scan_start p.event_on p.inside rest p.matched in
    Parts-extract (s ++ y) json_str (rest ++ y) (record {
      before = p.before;
      event_on = p.event_on ++ y;
      inside = p.inside;
      found =
          locate-append event_patterns s p.before p.event_on y patterns_open p.found
            (ap closes brace ∙ closing_brace p.inside rest);
      opened = opens-append p.event_on y p.opened;
      matched = match_brace-append scan_start p.event_on p.inside rest y p.matched;
      json_is = p.json_is;
    })

pub extract-shorter :
    (s json_str rest : Text) → extract s ≡ extracted json_str rest → length rest < length s
extract-shorter s json_str rest h =
    let p = extract-Parts s json_str rest h in
    omega (
      arith,
      ap length (locate_split event_patterns s p.before p.event_on p.found),
      ap length (match_brace_split scan_start p.event_on p.inside rest p.matched),
      length-append p.before p.event_on,
      length-append p.inside (125 ∷ rest),
    )

pub extract-ne-panicked : (s : Text) → extract s ≡ panicked → ⊥
extract-ne-panicked s h = at (locate event_patterns s) (sym (extract-located s) ∙ h)
  where
    at : (o : Option (Text × Text)) → from_located o ≡ panicked → ⊥
    at none e = cc
    at (some (before, rest)) e = braces (between_braces rest) e
      where
        braces : (o : Option (Text × Text)) → as_extraction o ≡ panicked → ⊥
        braces none e = cc
        braces (some (inside, after)) e = cc

-- ===== src/Streaming/Extract/Located.antt =====
-- What the search for patterns and for the closing brace finds, without positions.
use rkgw.Base.{
  ℕ, suc, ◌+◌, true, false, List, [], ◌∷◌, ◌++◌, Option, none, some, any, if◌then◌else◌, ◌≡◌, ◌⊎◌,
  inl, inr, refl, ap, sym, ◌∙◌, append_assoc, Bool-cases, arith,
}
use rkgw.Base.Chars.{
  Text, utf8_len, text_len, text_len-append, find, shift, split_at, split_at-append, starts_with,
}
use rkgw.Streaming.Extract.{
  event_patterns, closer, earliest_from, Scan, scan_start, scan_step, scan_brace, opens,
  find_matching_brace, Extraction, waiting, extracted, cut, extract,
}

abbrev pub push_before : ℕ → Option (Text × Text) → Option (Text × Text)
push_before c none = none
push_before c (some (before, rest)) = some (c ∷ before, rest)

-- The text before the first occurrence of any pattern, and the text from there on.
unfoldable pub locate : List Text → Text → Option (Text × Text)
unfolding starts_with
locate patterns [] = if any (starts_with []) patterns then some ([], []) else none
locate patterns (c ∷ s) =
    let later = push_before c (locate patterns s) in
    if any (starts_with (c ∷ s)) patterns then some ([], c ∷ s) else later

abbrev pub position : Option (Text × Text) → Option ℕ
position none = none
position (some (before, rest)) = some (text_len before)

position-push_before :
    (c : ℕ) (o : Option (Text × Text))
    → position (push_before c o) ≡ shift (utf8_len c) (position o)
position-push_before c none = refl
position-push_before c (some (before, rest)) = refl

locate-none : (s : Text) → position (locate [] s) ≡ none
unfolding locate
locate-none [] = refl
locate-none (c ∷ s) = position-push_before c (locate [] s) ∙ ap (shift (utf8_len c)) (locate-none s)

closer-shift : (n : ℕ) (a b : Option ℕ) → closer (shift n a) (shift n b) ≡ shift n (closer a b)
closer-shift n none none = refl
closer-shift n (some i) none = refl
closer-shift n none (some j) = refl
closer-shift n (some i) (some j) = ground arith

closer_zero : (n : ℕ) (a : Option ℕ) → closer (shift n a) (some 0) ≡ some 0
closer_zero n none = refl
closer_zero n (some i) = ground arith

zero_closer : (b : Option ℕ) → closer (some 0) b ≡ some 0
zero_closer none = refl
zero_closer (some j) = ground arith

closer_assoc : (a b c : Option ℕ) → closer (closer a b) c ≡ closer a (closer b c)
closer_assoc none none none = refl
closer_assoc none none (some k) = refl
closer_assoc none (some j) none = refl
closer_assoc none (some j) (some k) = ground arith
closer_assoc (some i) none none = refl
closer_assoc (some i) none (some k) = refl
closer_assoc (some i) (some j) none = ground arith
closer_assoc (some i) (some j) (some k) = ground arith

-- One pattern more.
locate_first :
    (p : Text) (patterns : List Text) (s : Text)
    → position (locate (p ∷ patterns) s) ≡ closer (find s p) (position (locate patterns s))
unfolding locate find
locate_first p patterns [] = ground arith
locate_first p patterns (c ∷ s) = elim (Bool-cases (starts_with (c ∷ s) p)) [
  | inl e ↦ rw e (sym (zero_closer (position (locate patterns (c ∷ s)))))
  | inr e ↦ elim (Bool-cases (any (starts_with (c ∷ s)) patterns)) [
    | inl f ↦ rw (e, f) (sym (closer_zero (utf8_len c) (find s p)))
    | inr f ↦
        rw (e, f)
          (position-push_before c (locate (p ∷ patterns) s)
            ∙ ap (shift (utf8_len c)) (locate_first p patterns s)
            ∙ sym (closer-shift (utf8_len c) (find s p) (position (locate patterns s)))
            ∙ ap (closer (shift (utf8_len c) (find s p)))
                (sym (position-push_before c (locate patterns s))))
  ]
]

earliest_from-locate :
    (earliest : Option ℕ) (s : Text) (patterns : List Text)
    → earliest_from earliest s patterns ≡ closer earliest (position (locate patterns s))
unfolding earliest_from
earliest_from-locate earliest s [] = ap (closer earliest) (sym (locate-none s))
earliest_from-locate earliest s (p ∷ patterns) =
    earliest_from-locate (closer earliest (find s p)) s patterns
    ∙ closer_assoc earliest (find s p) (position (locate patterns s))
    ∙ ap (closer earliest) (sym (locate_first p patterns s))

pub push_before-some :
    (c : ℕ) (o : Option (Text × Text)) (before rest : Text)
    → push_before c o ≡ some (before, rest)
    → (b : Text) × (o ≡ some (b, rest)) × (before ≡ c ∷ b)
push_before-some c none before rest h = absurd (cc)
push_before-some c (some (b, r)) before rest h = (b, ap (λ t. some (b, t)) (cc), cc)

pub locate_cases :
    (patterns : List Text) (c : ℕ) (s before rest : Text)
    → locate patterns (c ∷ s) ≡ some (before, rest)
    → ((any (starts_with (c ∷ s)) patterns ≡ true) × (before ≡ []) × (rest ≡ c ∷ s))
      ⊎ ((any (starts_with (c ∷ s)) patterns ≡ false)
          × ((b : Text) × (locate patterns s ≡ some (b, rest)) × (before ≡ c ∷ b)))
unfolding locate
locate_cases patterns c s before rest h = elim (Bool-cases (any (starts_with (c ∷ s)) patterns)) [
  | inl e ↦ let here : some ([], c ∷ s) ≡ some (before, rest) = rw e at h in inl (e, cc, cc)
  | inr e ↦ inr (e, push_before-some c (locate patterns s) before rest (rw e at h))
]

pub locate_split :
    (patterns : List Text) (s before rest : Text)
    → locate patterns s ≡ some (before, rest)
    → s ≡ before ++ rest
unfolding locate
locate_split patterns [] before rest h = elim (Bool-cases (any (starts_with []) patterns)) [
  | inl e ↦
      let here : some ([], []) ≡ some (before, rest) = rw e at h in
      let b : [] ≡ before = cc in let r : [] ≡ rest = cc in rw (← b, ← r) refl
  | inr e ↦ absurd (cc (rw e at h))
]
locate_split patterns (c ∷ s) before rest h = elim (locate_cases patterns c s before rest h) [
  | inl (e, b, r) ↦ rw (b, r) refl
  | inr (e, (b, found, same)) ↦ rw same (ap (λ t. c ∷ t) (locate_split patterns s b rest found))
]

-- The text up to the brace that the scan finds, and the text behind it.
unfoldable pub match_brace : Scan → Text → Option (Text × Text)
unfolding scan_step
match_brace st [] = none
match_brace st (c ∷ s) =
    let (found, next) = scan_step st c in
    let later = push_before c (match_brace next s) in if found then some ([], s) else later

pub scan_step-found : (st : Scan) (c : ℕ) → (scan_step st c).0 ≡ true → c ≡ 125
unfolding scan_step
scan_step-found st c h = ground (arith, h)

scan_brace-match : (st : Scan) (s : Text) → scan_brace st s ≡ position (match_brace st s)
unfolding scan_brace match_brace
scan_brace-match st [] = refl
scan_brace-match st (c ∷ s) = elim (Bool-cases (scan_step st c).0) [
  | inl e ↦ rw e refl
  | inr e ↦ rw e (
      ap (shift (utf8_len c)) (scan_brace-match (scan_step st c).1 s)
      ∙ sym (position-push_before c (match_brace (scan_step st c).1 s)))
]

pub match_brace_split :
    (st : Scan) (s inside rest : Text)
    → match_brace st s ≡ some (inside, rest)
    → s ≡ inside ++ (125 ∷ rest)
unfolding match_brace
match_brace_split st [] inside rest h = absurd (cc)
match_brace_split st (c ∷ s) inside rest h = elim (Bool-cases (scan_step st c).0) [
  | inl e ↦
      let here : some ([], s) ≡ some (inside, rest) = rw e at h in
      let b : [] ≡ inside = cc in
      let r : s ≡ rest = cc in rw (← b, ← r, scan_step-found st c e) refl
  | inr e ↦
      let (b, found, same) =
        push_before-some c (match_brace (scan_step st c).1 s) inside rest (rw e at h) in
      rw same (ap (λ t. c ∷ t) (match_brace_split (scan_step st c).1 s b rest found))
]

find_matching_brace-located :
    (before rest : Text)
    → find_matching_brace (before ++ rest) (text_len before) ≡ (
        if opens rest
        then shift (text_len before) (position (match_brace scan_start rest))
        else none)
unfolding find_matching_brace
find_matching_brace-located before rest =
    rw (split_at-append before rest, find_matching_brace)
      (ap (λ o. if opens rest then shift (text_len before) o else none)
        (scan_brace-match scan_start rest))

cut_at :
    (s taken rest before json : Text) (json_start json_end : ℕ)
    → split_at s (suc json_end) ≡ some (taken, rest)
    → split_at taken json_start ≡ some (before, json)
    → cut s json_start json_end ≡ extracted json rest
unfolding cut
cut_at s taken rest before json json_start json_end e f = rw (e, cut) (rw f refl)

cut-located :
    (before inside after : Text)
    → cut
        (before ++ (inside ++ (125 ∷ after)))
        (text_len before)
        (text_len before + text_len inside)
      ≡ extracted (inside ++ (125 ∷ [])) after
unfolding utf8_len
cut-located before inside after =
    let json = inside ++ (125 ∷ []) in
    let joined : before ++ (inside ++ (125 ∷ after)) ≡ (before ++ json) ++ after =
      ap (λ t. before ++ t) (sym (append_assoc inside (125 ∷ []) after))
      ∙ sym (append_assoc before json after) in
    let size : suc (text_len before + text_len inside) ≡ text_len (before ++ json) =
      omega (arith, text_len-append before json, text_len-append inside (125 ∷ [])) in
    cut_at (before ++ (inside ++ (125 ∷ after))) (before ++ json) after before json
      (text_len before) (text_len before + text_len inside)
      (ap (split_at (before ++ (inside ++ (125 ∷ after)))) size
        ∙ ap (λ t. split_at t (text_len (before ++ json))) joined
        ∙ split_at-append (before ++ json) after)
      (split_at-append before json)

-- The extraction without positions.
abbrev pub between_braces : Text → Option (Text × Text)
between_braces rest = if opens rest then match_brace scan_start rest else none

abbrev pub as_extraction : Option (Text × Text) → Extraction
as_extraction none = waiting
as_extraction (some (inside, after)) = extracted (inside ++ (125 ∷ [])) after

abbrev pub from_located : Option (Text × Text) → Extraction
from_located none = waiting
from_located (some (before, rest)) = as_extraction (between_braces rest)

extract_at :
    (before rest : Text)
    → (elim (find_matching_brace (before ++ rest) (text_len before)) [
      | none ↦ waiting
      | some json_end ↦ cut (before ++ rest) (text_len before) json_end
    ])
      ≡ as_extraction (between_braces rest)
extract_at before rest =
    rw (find_matching_brace-located before rest) (elim (Bool-cases (opens rest)) [
      | inl e ↦ rw e (matched (match_brace scan_start rest) refl)
      | inr e ↦ rw e refl
    ])
  where
    matched :
        (o : Option (Text × Text))
        → match_brace scan_start rest ≡ o
        → (elim (shift (text_len before) (position o)) [
          | none ↦ waiting
          | some json_end ↦ cut (before ++ rest) (text_len before) json_end
        ])
          ≡ as_extraction o
    matched none e = refl
    matched (some (inside, after)) e =
        ap (λ t. cut (before ++ t) (text_len before) (text_len before + text_len inside))
          (match_brace_split scan_start rest inside after e)
        ∙ cut-located before inside after

abbrev brace_from : Text → ℕ → Extraction
brace_from s json_start = elim (find_matching_brace s json_start) [
  | none ↦ waiting
  | some json_end ↦ cut s json_start json_end
]

abbrev extract_from : Text → Option ℕ → Extraction
extract_from s o = elim o [ none ↦ waiting | some json_start ↦ brace_from s json_start ]

none-closer : (o : Option ℕ) → closer none o ≡ o
none-closer none = refl
none-closer (some i) = refl

-- Extraction without positions: it takes the first pattern, and the braces from there on.
pub extract-located : (s : Text) → extract s ≡ from_located (locate event_patterns s)
unfolding extract
extract-located s =
    ap (extract_from s) (
      earliest_from-locate none s event_patterns ∙ none-closer (position (locate event_patterns s)))
    ∙ at (locate event_patterns s) refl
  where
    at :
        (o : Option (Text × Text))
        → locate event_patterns s ≡ o
        → extract_from s (position o) ≡ from_located o
    at none e = refl
    at (some (before, rest)) e =
        ap (λ t. brace_from t (text_len before)) (locate_split event_patterns s before rest e)
        ∙ extract_at before rest

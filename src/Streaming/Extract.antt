-- ===== src/Streaming/Extract.antt =====
-- backend/src/streaming/mod.rs: `SseParser`, which finds the JSON events in the AWS event stream of Kiro, and
-- `find_matching_brace`. `from_str` is the JSON parser of `serde_json`. The bytes that matter to the brace
-- count are ASCII, so it is taken over characters. The counter never falls below one before the brace
-- that is sought, and would wrap only behind 2^31 open braces.
pub mod Located
pub mod Cut
pub mod Chunks
pub mod Braces
mod Examples
use rkgw.Base.{
  ℕ, zero, suc, ◌+◌, ◌-◌, Bool, true, false, ◌&&◌, not, List, [], ◌∷◌, ◌++◌, Option, none, some,
  ltb, eqb, if◌then◌else◌, length, min,
}
use rkgw.Base.Chars.{Text, chars, utf8_len, text_len, find, shift, split_at}
use rkgw.Base.Utf8.{from_utf8_lossy}
use rkgw.Converters.Messages.{Json}

abbrev pub event_patterns : List Text
event_patterns =
    chars "{\"content\":"
    ∷ chars "{\"name\":"
    ∷ chars "{\"input\":"
    ∷ chars "{\"stop\":"
    ∷ chars "{\"followupPrompt\":"
    ∷ chars "{\"usage\":"
    ∷ chars "{\"contextUsagePercentage\":"
    ∷ []

abbrev pub closer : Option ℕ → Option ℕ → Option ℕ
closer earliest none = earliest
closer none (some pos) = some pos
closer (some earliest) (some pos) = if ltb pos earliest then some pos else some earliest

-- The loop over the patterns.
unfoldable pub earliest_from : Option ℕ → Text → List Text → Option ℕ
unfolding find
earliest_from earliest buffer [] = earliest
earliest_from earliest buffer (pattern ∷ patterns) =
    earliest_from (closer earliest (find buffer pattern)) buffer patterns

pub record Scan : Type 0 where
  pub brace_count : ℕ
  pub in_string : Bool
  pub escape_next : Bool

abbrev pub scan_start : Scan
scan_start = record { brace_count = 0; in_string = false; escape_next = false }

-- One round of the scan: whether the brace is found, and the state behind the character.
unfoldable pub scan_step : Scan → ℕ → Bool × Scan
scan_step s c =
    if s.escape_next
    then (false, record s { escape_next = false })
    else if eqb c 92 && s.in_string
    then (false, record s { escape_next = true })
    else if eqb c 34
    then (false, record s { in_string = not s.in_string })
    else if s.in_string
    then (false, s)
    else if eqb c 123
    then (false, record s { brace_count = s.brace_count + 1 })
    else if eqb c 125
    then (eqb (s.brace_count - 1) 0, record s { brace_count = s.brace_count - 1 })
    else (false, s)

unfoldable pub scan_brace : Scan → Text → Option ℕ
unfolding scan_step
scan_brace s [] = none
scan_brace s (c ∷ text) =
    let (found, next) = scan_step s c in
    let later = shift (utf8_len c) (scan_brace next text) in if found then some 0 else later

abbrev pub opens : Text → Bool
opens [] = false
opens (c ∷ text) = eqb c 123

unfoldable pub find_matching_brace : Text → ℕ → Option ℕ
unfolding scan_brace split_at
find_matching_brace text start_pos = elim (split_at text start_pos) [
  | none ↦ none
  | some (before, rest) ↦
      (if opens rest then shift start_pos (scan_brace scan_start rest) else none)
]

-- What a round of the loop finds in the buffer.
pub data Extraction : Type 0 where
  waiting panicked : Extraction
  extracted : (json_str rest : Text) → Extraction

-- `&buffer[start..=end]`, and the buffer without all of it.
unfoldable pub cut : Text → ℕ → ℕ → Extraction
unfolding split_at
cut buffer json_start json_end = elim (split_at buffer (suc json_end)) [
  | none ↦ panicked
  | some (taken, rest) ↦ elim (split_at taken json_start) [
    | none ↦ panicked
    | some (before, json_str) ↦ extracted json_str rest
  ]
]

unfoldable pub extract : Text → Extraction
unfolding earliest_from find_matching_brace cut
extract buffer = elim (earliest_from none buffer event_patterns) [
  | none ↦ waiting
  | some json_start ↦ elim (find_matching_brace buffer json_start) [
    | none ↦ waiting
    | some json_end ↦ cut buffer json_start json_end
  ]
]

abbrev pub push_event : Json → Option (List Json × Text) → Option (List Json × Text)
push_event json none = none
push_event json (some (events, buffer)) = some (json ∷ events, buffer)

module _ (from_str : Text → Option Json) where
  -- The events of a text that is cut out: none where it does not parse, and then the warning about
  -- it panics if its hundredth byte is inside a character.
  abbrev pub after_cut : Text → Option (List Json × Text) → Option (List Json × Text)
  after_cut json_str later = elim (from_str json_str) [
    | some json ↦ push_event json later
    | none ↦ elim (split_at json_str (min (text_len json_str) 100)) [
      | none ↦ none
      | some shown ↦ later
    ]
  ]

  -- The loop; each round takes characters from the buffer, so that more fuel than it has is enough.
  -- `none` is a panic.
  unfoldable pub extract_all : ℕ → Text → Option (List Json × Text)
  unfolding extract
  extract_all zero buffer = some ([], buffer)
  extract_all (suc fuel) buffer = elim (extract buffer) [
    | waiting ↦ some ([], buffer)
    | panicked ↦ none
    | extracted json_str rest ↦ after_cut json_str (extract_all fuel rest)
  ]

  unfoldable pub feed : Text → List ℕ → Option (List Json × Text)
  unfolding extract_all from_utf8_lossy
  feed buffer chunk =
      let longer = buffer ++ from_utf8_lossy chunk in extract_all (suc (length longer)) longer

-- ===== src/Streaming/Sse.antt =====
-- backend/src/streaming/sse.rs: `parse_sse_stream`. The stream of byte chunks is a list, and what is yielded
-- is a list; `from_str` is the JSON parser of `serde_json`.
pub mod Lines
pub mod Stream
mod Examples
use rkgw.Base.{
  ℕ, zero, suc, Bool, true, false, List, [], ◌∷◌, ◌++◌, map, Option, none, some, eqb, if◌then◌else◌,
  is_empty, length, all,
}
use rkgw.Base.Chars.{Text, chars, starts_with}
use rkgw.Base.Utf8.{from_utf8}
use rkgw.Converters.Messages.{Json}

pub data Chunk : Type 0 where
  bytes : List ℕ → Chunk
  broken : Chunk

pub data StreamError : Type 0 where
  stream_error invalid_utf8 : StreamError

pub data Yield : Type 0 where
  event : Json → Yield
  failure : StreamError → Yield

abbrev push_front : ℕ → Option (Text × Text) → Option (Text × Text)
push_front c none = none
push_front c (some (line, rest)) = some (c ∷ line, rest)

-- `buffer.find('\n')`, with what stands before and behind the newline.
unfoldable pub split_line : Text → Option (Text × Text)
split_line [] = none
split_line (c ∷ s) =
    let later = push_front c (split_line s) in if eqb c 10 then some ([], s) else later

-- `line.trim_end_matches('\r')`
unfoldable pub trim_returns : Text → Text
trim_returns [] = []
trim_returns (c ∷ s) =
    let rest = trim_returns s in
    if eqb c 13 then (if is_empty rest then [] else c ∷ rest) else c ∷ rest

unfoldable pub strip_prefix : Text → Text → Option Text
strip_prefix s [] = some s
strip_prefix [] (d ∷ p) = none
strip_prefix (c ∷ s) (d ∷ p) = if eqb c d then strip_prefix s p else none

abbrev pub text_eqb : Text → Text → Bool
text_eqb [] [] = true
text_eqb (c ∷ s) (d ∷ t) = if eqb c d then text_eqb s t else false
text_eqb _ _ = false

-- `str::lines`
abbrev pub push_line : ℕ → List Text × Text → List Text × Text
push_line c ([], rest) = ([], c ∷ rest)
push_line c (line ∷ lines, rest) = ((c ∷ line) ∷ lines, rest)

-- The lines that a newline ends, and what stands behind the last one.
unfoldable pub complete : Text → List Text × Text
complete [] = ([], [])
complete (c ∷ s) =
    let (lines, rest) = complete s in
    if eqb c 10 then ([] ∷ lines, rest) else push_line c (lines, rest)

unfoldable pub strip_return : Text → Text
strip_return [] = []
strip_return (c ∷ []) = if eqb c 13 then [] else c ∷ []
strip_return (c ∷ (d ∷ s)) = c ∷ strip_return (d ∷ s)

unfoldable pub lines : Text → List Text
unfolding complete strip_return
lines s =
    let (full, rest) = complete s in
    map strip_return full ++ (if is_empty rest then [] else rest ∷ [])

-- What a line brings about.
pub data LineEvent : Type 0 where
  skipped stop : LineEvent
  value : Json → LineEvent

abbrev pub after_line : LineEvent → List Json × Option Text → List Json × Option Text
after_line skipped later = later
after_line stop later = ([], none)
after_line (value v) (values, rest) = (v ∷ values, rest)

module _ (from_str : Text → Option Json) where
  unfoldable pub parsed : Text → LineEvent
  parsed payload =
      if text_eqb payload (chars "[DONE]")
      then stop
      else elim (from_str payload) [ none ↦ skipped | some v ↦ value v ]

  unfoldable pub read_line : Text → LineEvent
  unfolding trim_returns strip_prefix parsed
  read_line line = elim (strip_prefix (trim_returns line) (chars "data: ")) [
    | none ↦ skipped
    | some payload ↦ parsed payload
  ]

  -- The loop over the complete lines of the buffer. `none` is the return at the sentinel; a round
  -- takes at least a newline, so that more fuel than characters is enough.
  unfoldable pub process_lines : ℕ → Text → List Json × Option Text
  unfolding split_line read_line
  process_lines zero buffer = ([], some buffer)
  process_lines (suc fuel) buffer = elim (split_line buffer) [
    | none ↦ ([], some buffer)
    | some (line, rest) ↦ after_line (read_line line) (process_lines fuel rest)
  ]

  -- The lines of the buffer that is left at the end.
  unfoldable pub read_rest : List Text → List Json
  unfolding read_line
  read_rest [] = []
  read_rest (line ∷ more) = (after_line (read_line line) (read_rest more, none)).0

  unfoldable pub stream_from : Text → List Chunk → List Yield
  unfolding process_lines read_rest lines from_utf8
  stream_from buffer [] = map event (read_rest (lines buffer))
  stream_from buffer (broken ∷ chunks) = failure stream_error ∷ []
  stream_from buffer (bytes bs ∷ chunks) = elim (from_utf8 bs) [
    | none ↦ failure invalid_utf8 ∷ []
    | some text ↦
        let (values, left) = process_lines (suc (length (buffer ++ text))) (buffer ++ text) in
        map event values ++ (elim left [ none ↦ [] | some rest ↦ stream_from rest chunks ])
  ]

  unfoldable pub parse_sse_stream : List Chunk → List Yield
  unfolding stream_from
  parse_sse_stream chunks = stream_from [] chunks

-- ===== src/Streaming/Sse/Examples.antt =====
-- Two events in three chunks, and a character that two chunks share.
use rkgw.Base.{List, [], ◌∷◌, ◌++◌, map, Option, none, some, refl, ◌≡◌}
use rkgw.Base.Chars.{Text, chars}
use rkgw.Base.Utf8.{from_utf8}
use rkgw.Converters.Messages.{Json, number}
use rkgw.Streaming.Sse.{
  Chunk, bytes, broken, stream_error, invalid_utf8, event, failure, complete, lines, split_line,
  process_lines, read_line, read_rest, stream_from, parse_sse_stream,
}
use rkgw.Streaming.Sse.Lines.{read_lines}
use rkgw.Streaming.Sse.Stream.{decoded_text, error_of, parse_sse_stream-failure}

-- A JSON parser that reads one character as a number.
abbrev one_digit : Text → Option Json
one_digit (c ∷ []) = some (number "1")
one_digit _ = none

abbrev first : List Chunk
first = bytes (chars "data: 1") ∷ bytes (chars "\r\nevent: x\nda") ∷ []

abbrev stream : List Chunk
stream = first ++ (bytes (chars "ta: 22\ndata: 3") ∷ [])

parse_run : parse_sse_stream one_digit stream ≡ event (number "1") ∷ event (number "1") ∷ []
unfolding parse_sse_stream stream_from process_lines split_line read_line read_rest lines from_utf8
parse_run = refl

-- A character that two chunks share is taken for an error, although the whole text is UTF-8.
split_run :
    parse_sse_stream one_digit (bytes (195 ∷ []) ∷ bytes (169 ∷ 10 ∷ []) ∷ [])
    ≡ failure invalid_utf8 ∷ []
unfolding parse_sse_stream stream_from from_utf8
split_run = refl

first-decoded : decoded_text first ≡ some (chars "data: 1\r\nevent: x\nda")
unfolding decoded_text from_utf8
first-decoded = refl

parse_sse_stream-failure_example :
    let (values, left) =
      read_lines one_digit
        (complete (chars "data: 1\r\nevent: x\nda")).0
        (some (complete (chars "data: 1\r\nevent: x\nda")).1) in
    parse_sse_stream one_digit (first ++ (broken ∷ []))
    ≡ map event values ++ (elim left [ none ↦ [] | some rest ↦ failure stream_error ∷ [] ])
unfolding error_of
parse_sse_stream-failure_example =
    parse_sse_stream-failure one_digit first [] broken (chars "data: 1\r\nevent: x\nda")
      stream_error first-decoded refl

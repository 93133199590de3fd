-- ===== src/Streaming/Extract/Examples.antt =====
-- An event in two chunks between framing bytes, and the panic of the warning.
use rkgw.Base.{ℕ, arith, zero, List, [], ◌∷◌, ◌++◌, Option, none, some, suc, ◌≡◌, refl}
use rkgw.Base.Chars.{Text, chars, find, starts_with, split_at, utf8_len}
use rkgw.Base.Utf8.{from_utf8_lossy}
use rkgw.Converters.Messages.{Json, number}
use rkgw.Streaming.Extract.{
  waiting, earliest_from, scan_brace, find_matching_brace, cut, extract, extract_all, feed,
}
use rkgw.Streaming.Extract.Braces.{
  closed, ordinary, escaped, done, plain, quoted, find_matching_brace-IsInside,
}
use rkgw.Streaming.Extract.Chunks.{
  whole, lossy_text, feed_all, feed_all-extract_all, extract_all_ends,
}

abbrev always : Text → Option Json
always s = some (number "1")

abbrev never : Text → Option Json
never s = none

abbrev chunks : List (List ℕ)
chunks = chars "\n:{\"content\":\"a}b" ∷ chars "\"}xy" ∷ []

feed_run : feed_all always [] chunks ≡ some (number "1" ∷ [], chars "xy")
unfolding feed_all feed extract_all extract earliest_from find starts_with find_matching_brace
    scan_brace cut split_at from_utf8_lossy utf8_len
feed_run = refl

abbrev filler : ℕ → List ℕ → List ℕ
filler zero rest = rest
filler (suc n) rest = 97 ∷ filler n rest

-- An event that does not parse, with a character of two bytes across its hundredth byte.
panic_run : feed never [] (chars "{\"content\":" ++ filler 88 (195 ∷ 169 ∷ 125 ∷ [])) ≡ none
unfolding feed extract_all extract earliest_from find starts_with find_matching_brace scan_brace cut
    split_at from_utf8_lossy utf8_len
panic_run = refl

-- A character that two chunks share comes out as two replacement characters.
lossy_run : lossy_text ((195 ∷ []) ∷ (169 ∷ []) ∷ []) ≡ 65533 ∷ 65533 ∷ []
unfolding from_utf8_lossy
lossy_run = refl

feed_all-extract_all_example : feed_all always [] chunks ≡ whole always (lossy_text chunks)
feed_all-extract_all_example = feed_all-extract_all always chunks

-- An event whose text has braces, a quote and a backslash.
find_matching_brace-IsInside_example :
    find_matching_brace (chars ":{\"a\":\"}\\\"{\"}{") 1 ≡ some 12
unfolding utf8_len
find_matching_brace-IsInside_example =
    find_matching_brace-IsInside (chars ":")
      (quoted (ordinary 97 closed)
        (plain 58 (quoted (ordinary 125 (escaped 34 (ordinary 123 closed))) done)))
      (chars "{") ((refl, refl, tt), (refl, refl, refl, ((refl, refl, (refl, refl, tt)), tt)))

ends_run : extract_all always 30 (chars "{\"content\":1}x") ≡ some (number "1" ∷ [], chars "x")
unfolding extract_all extract earliest_from find starts_with find_matching_brace scan_brace cut
    split_at utf8_len
ends_run = refl

extract_all_ends_example :
    (extract_all always 20 (chars "{\"content\":1}x") ≡ some (number "1" ∷ [], chars "x"))
    × (extract (chars "x") ≡ waiting)
extract_all_ends_example =
    extract_all_ends always 30 20 (chars "{\"content\":1}x") (chars "x") (number "1" ∷ [])
      (omega arith) (omega arith) ends_run

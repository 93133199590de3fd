-- ===== src/Truncation/Diagnosis.antt =====
-- backend/src/truncation.rs: the diagnosis of a JSON text that may be cut. A counter is an i32 as the word of its 32
-- bits; a build with overflow checks would panic where it wraps, after more than 2^31 brackets.
pub mod Counted
use Prim.Native.String.{◌++◌ as join}
use rkgw.Base.{
  List, [], ◌∷◌, ℕ, zero, suc, ◌+◌, ◌-◌, ◌/◌, ◌%◌, ◌^◌, String, Bool, true, false, ◌&&◌, not, ltb,
  eqb, if◌then◌else◌, is_empty,
}
use rkgw.Base.Chars.{Text, text_len, is_whitespace, trim_start}
use rkgw.Truncation.{TruncationInfo}

unfoldable pub trim_end : Text → Text
trim_end [] = []
trim_end (c ∷ s) =
    let rest = trim_end s in if is_whitespace c && is_empty rest then [] else c ∷ rest

-- `str::trim`
unfoldable pub trim : Text → Text
unfolding trim_end trim_start is_whitespace
trim s = trim_end (trim_start s)

abbrev pub starts_with_char : ℕ → Text → Bool
starts_with_char c [] = false
starts_with_char c (d ∷ s) = eqb d c

abbrev pub ends_with_char : ℕ → Text → Bool
ends_with_char c [] = false
ends_with_char c (d ∷ []) = eqb d c
ends_with_char c (d ∷ (e ∷ s)) = ends_with_char c (e ∷ s)

-- The counter of an opening and a closing character over the loop.
unfoldable pub balance_from : ℕ → ℕ → ℕ → Text → ℕ
balance_from opening closing n [] = n
balance_from opening closing n (c ∷ s) =
    let next =
      if eqb c opening
      then (n + 1) % 2 ^ 32
      else if eqb c closing
      then (n + (2 ^ 32 - 1)) % 2 ^ 32
      else n in
    balance_from opening closing next s

-- The quotes that no backslash stands before.
unfoldable pub quotes_from : ℕ → Text → ℕ
quotes_from n [] = n
quotes_from n (c ∷ []) = if eqb c 34 then (n + 1) % 2 ^ 32 else n
quotes_from n (c ∷ (d ∷ s)) =
    let skipped = quotes_from n s in
    let counted = quotes_from (if eqb c 34 then (n + 1) % 2 ^ 32 else n) (d ∷ s) in
    if eqb c 92 then skipped else counted

unfoldable pub digit : ℕ → String
digit n =
    if eqb n 0
    then "0"
    else if eqb n 1
    then "1"
    else if eqb n 2
    then "2"
    else if eqb n 3
    then "3"
    else if eqb n 4
    then "4"
    else if eqb n 5
    then "5"
    else if eqb n 6
    then "6"
    else if eqb n 7
    then "7"
    else if eqb n 8
    then "8"
    else "9"

-- The decimal digits of a number; as much fuel as the number is enough.
unfoldable pub decimal : ℕ → ℕ → String
unfolding digit
decimal zero n = digit (n % 10)
decimal (suc fuel) n =
    let rest = decimal fuel (n / 10) in if ltb n 10 then digit n else join rest (digit (n % 10))

-- An i32 in decimal; eleven steps are enough for its digits.
unfoldable pub format_i32 : ℕ → String
unfolding decimal
format_i32 n = if ltb n (2 ^ 31) then decimal 11 n else join "-" (decimal 11 (2 ^ 32 - n))

abbrev pub verdict : Bool → String → ℕ → TruncationInfo
verdict is_truncated reason size_bytes = record {
  is_truncated = is_truncated;
  reason = reason;
  size_bytes = size_bytes;
}

-- The checks on a text that is not empty, in their order.
unfoldable pub diagnose_trimmed : Text → ℕ → TruncationInfo
unfolding balance_from quotes_from format_i32
diagnose_trimmed trimmed size_bytes =
    let braces = balance_from 123 125 0 trimmed in
    let brackets = balance_from 91 93 0 trimmed in
    let quotes = quotes_from 0 trimmed in
    if starts_with_char 123 trimmed && not (ends_with_char 125 trimmed)
    then verdict true "starts with '{' but does not end with '}'" size_bytes
    else if starts_with_char 91 trimmed && not (ends_with_char 93 trimmed)
    then verdict true "starts with '[' but does not end with ']'" size_bytes
    else if not (eqb braces 0)
    then verdict true (join "unbalanced braces (count: " (join (format_i32 braces) ")")) size_bytes
    else if not (eqb brackets 0)
    then verdict true (join "unbalanced brackets (count: " (join (format_i32 brackets) ")"))
        size_bytes
    else if not (eqb (quotes % 2) 0)
    then verdict true (join "unclosed string literal (quote count: " (join (format_i32 quotes) ")"))
        size_bytes
    else verdict false "all checks passed" size_bytes

unfoldable pub diagnose_json_truncation : Text → TruncationInfo
unfolding trim diagnose_trimmed
diagnose_json_truncation json_str =
    let size_bytes = text_len json_str in
    let trimmed = trim json_str in
    if is_empty trimmed
    then verdict false "empty string" size_bytes
    else diagnose_trimmed trimmed size_bytes

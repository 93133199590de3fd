-- ===== src/ThinkingParser.antt =====
-- backend/src/thinking_parser.rs. Texts are lists of code points with positions in bytes; `none`
-- is the panic of a slice inside a character or past the end.
pub mod Search
pub mod Closing
pub mod Feeding
pub mod Whole
pub mod Mode
mod Examples
use rkgw.Base.{
  ℕ, ◌+◌, ◌-◌, ◌*◌, ◌≡◌, String, Bool, true, false, ◌&&◌, ◌||◌, not, List, [], ◌∷◌, ◌++◌, Option,
  none, some, ltb, leb, ◌==◌, if◌then◌else◌, is_some, is_empty, unwrap_or, any, ◌>>=◌, string_eq,
}
use rkgw.Base.Chars.{Text, chars, utf8_len, text_len, trim_start, starts_with, find, split_at}

pub data ParserState : Type 0 where
  pre_content : ParserState
  in_thinking : ParserState
  streaming : ParserState

abbrev pub is_in_thinking : ParserState → Bool
is_in_thinking in_thinking = true
is_in_thinking _ = false

pub record ThinkingParseResult : Type 0 where
  pub thinking_content : Option Text
  pub regular_content : Option Text
  pub is_first_thinking_chunk : Bool
  pub is_last_thinking_chunk : Bool
  pub state_changed : Bool

pub record ThinkingParser : Type 0 where
  pub handling_mode : String
  pub open_tags : List Text
  pub initial_buffer_size : ℕ
  pub max_tag_length : ℕ
  pub state : ParserState
  pub initial_buffer : Text
  pub thinking_buffer : Text
  pub open_tag : Option Text
  pub close_tag : Option Text
  pub is_first : Bool
  pub thinking_block_found : Bool

abbrev pub default_result : ThinkingParseResult
default_result = record {
  thinking_content = none;
  regular_content = none;
  is_first_thinking_chunk = false;
  is_last_thinking_chunk = false;
  state_changed = false;
}

abbrev pub default_tags : List Text
default_tags = chars "<thinking>" ∷ chars "<think>" ∷ chars "<reasoning>" ∷ chars "<thought>" ∷ []

abbrev longest : List Text → ℕ
longest [] = 0
longest (t ∷ tags) = let rest = longest tags in if leb (text_len t) rest then rest else text_len t

unfoldable pub with_config : String → ℕ → ThinkingParser
with_config handling_mode initial_buffer_size = record {
  handling_mode = handling_mode;
  open_tags = default_tags;
  initial_buffer_size = initial_buffer_size;
  max_tag_length = longest default_tags * 2;
  state = pre_content;
  initial_buffer = [];
  thinking_buffer = [];
  open_tag = none;
  close_tag = none;
  is_first = true;
  thinking_block_found = false;
}

unfoldable pub new : ThinkingParser
unfolding with_config
new = with_config "as_reasoning_content" 20

-- The first tag that the text starts with.
unfoldable pub find_tag : List Text → Text → Option Text
find_tag [] stripped = none
find_tag (tag ∷ tags) stripped =
    let rest = find_tag tags stripped in if starts_with stripped tag then some tag else rest

-- The text may be the beginning of a tag, of which more is to come.
unfoldable pub is_partial : List Text → Text → Bool
is_partial tags stripped =
    any (λ tag. starts_with tag stripped && ltb (text_len stripped) (text_len tag)) tags

unfoldable pub could_be_tag_prefix : ThinkingParser → Text → Bool
could_be_tag_prefix p text = is_empty text || any (λ tag. starts_with tag text) p.open_tags

-- The parser after the opening tag, and the flag in its result.
unfoldable pub open_block :
    ThinkingParser → Text → Text → Option (ThinkingParseResult × ThinkingParser)
open_block p stripped tag = split_at tag 1 >>= λ (first, name).
    split_at stripped (text_len tag) >>= λ (before, content_after_tag). some (
      record default_result { state_changed = true },
      record p {
        state = in_thinking;
        open_tag = some tag;
        close_tag = some (chars "</" ++ name);
        thinking_block_found = true;
        thinking_buffer = content_after_tag;
        initial_buffer = [];
      },
    )

-- What follows the search for an opening tag at the buffer's start.
unfoldable pub detect :
    ThinkingParser → Text → Option Text → Option (ThinkingParseResult × ThinkingParser)
unfolding open_block
detect p buffer (some tag) = open_block p (trim_start buffer) tag
detect p buffer none =
    let stripped = trim_start buffer in
    if is_partial p.open_tags stripped
    then some (default_result, record p { initial_buffer = buffer })
    else if ltb p.initial_buffer_size (text_len buffer) || not (could_be_tag_prefix p stripped)
    then some (
      record default_result { state_changed = true; regular_content = some buffer },
      record p { state = streaming; initial_buffer = [] },
    )
    else some (default_result, record p { initial_buffer = buffer })

unfoldable pub handle_pre_content :
    ThinkingParser → Text → Option (ThinkingParseResult × ThinkingParser)
unfolding detect
handle_pre_content p content =
    let buffer = p.initial_buffer ++ content in
    detect p buffer (find_tag p.open_tags (trim_start buffer))

abbrev pub unless_empty : Text → Option Text
unless_empty [] = none
unless_empty (c ∷ s) = some (c ∷ s)

-- What a closing tag between the two texts leads to.
unfoldable pub close_block : ThinkingParser → Text → Text → ThinkingParseResult × ThinkingParser
close_block p thinking after_tag = (
  record {
    thinking_content = unless_empty thinking;
    regular_content = unless_empty (trim_start after_tag);
    is_first_thinking_chunk = not (is_empty thinking) && p.is_first;
    is_last_thinking_chunk = true;
    state_changed = true;
  },
  record p { state = streaming; thinking_buffer = []; is_first = is_empty thinking && p.is_first },
)

-- `char_indices().map(..).take_while(|&i| i <= split_point).last()`, from a byte position on.
unfoldable pub last_boundary : ℕ → ℕ → Text → Option ℕ
last_boundary at split_point [] = none
last_boundary at split_point (c ∷ s) =
    let rest = last_boundary (at + utf8_len c) split_point s in
    if leb at split_point then some (unwrap_or rest at) else none

-- No closing tag yet: what stands before the last `max_tag_length` bytes is sent.
unfoldable pub send_cautiously : ThinkingParser → Option (ThinkingParseResult × ThinkingParser)
send_cautiously p =
    let size = text_len p.thinking_buffer in
    let safe_split = unwrap_or (last_boundary 0 (size - p.max_tag_length) p.thinking_buffer) 0 in
    if ltb p.max_tag_length size && ltb 0 safe_split
    then (split_at p.thinking_buffer safe_split >>= λ (send_part, kept). some (
      record default_result {
        thinking_content = some send_part;
        is_first_thinking_chunk = p.is_first;
      },
      record p { thinking_buffer = kept; is_first = false },
    ))
    else some (default_result, p)

-- The closing tag at the position that `find` gives, if it gives one.
unfoldable pub search_close :
    ThinkingParser → Text → Option ℕ → Option (ThinkingParseResult × ThinkingParser)
unfolding close_block send_cautiously
search_close p close_tag none = send_cautiously p
search_close p close_tag (some idx) = split_at p.thinking_buffer idx >>= λ (thinking, from_tag).
    split_at p.thinking_buffer (idx + text_len close_tag) >>= λ (before, after_tag).
    some (close_block p thinking after_tag)

unfoldable pub process_tag :
    ThinkingParser → Option Text → Option (ThinkingParseResult × ThinkingParser)
unfolding search_close
process_tag p none = some (default_result, p)
process_tag p (some close_tag) = search_close p close_tag (find p.thinking_buffer close_tag)

unfoldable pub process_thinking_buffer :
    ThinkingParser → Option (ThinkingParseResult × ThinkingParser)
unfolding process_tag
process_thinking_buffer p = process_tag p p.close_tag

unfoldable pub handle_in_thinking :
    ThinkingParser → Text → Option (ThinkingParseResult × ThinkingParser)
handle_in_thinking p content =
    process_thinking_buffer (record p { thinking_buffer = p.thinking_buffer ++ content })

abbrev pub or_else : Option Text → Option Text → Option Text
or_else none other = other
or_else (some t) other = some t

-- The result of the opening tag, overwritten by that of the buffer behind it.
unfoldable pub merge : ThinkingParseResult → ThinkingParseResult → ThinkingParseResult
merge result thinking_result = record result {
  thinking_content = or_else thinking_result.thinking_content result.thinking_content;
  is_first_thinking_chunk =
      if is_some thinking_result.thinking_content
      then thinking_result.is_first_thinking_chunk
      else result.is_first_thinking_chunk;
  is_last_thinking_chunk =
      if thinking_result.is_last_thinking_chunk then true else result.is_last_thinking_chunk;
  regular_content = or_else thinking_result.regular_content result.regular_content;
}

-- Content that has just opened a block is searched for the closing tag at once.
unfoldable pub after_pre_content :
    ThinkingParseResult × ThinkingParser → Option (ThinkingParseResult × ThinkingParser)
unfolding merge
after_pre_content (result, p) =
    if is_in_thinking p.state && result.state_changed
    then (process_thinking_buffer p >>= λ (thinking_result, p').
        some (merge result thinking_result, p'))
    else some (result, p)

unfoldable pub feed_in :
    ParserState → ThinkingParser → Text → Option (ThinkingParseResult × ThinkingParser)
feed_in pre_content p content = handle_pre_content p content >>= after_pre_content
feed_in in_thinking p content = handle_in_thinking p content
feed_in streaming p content = some (record default_result { regular_content = some content }, p)

unfoldable pub feed : ThinkingParser → Text → Option (ThinkingParseResult × ThinkingParser)
unfolding feed_in
feed p [] = some (default_result, p)
feed p (c ∷ content) = feed_in p.state p (c ∷ content)

-- The two buffers are flushed in turn.
unfoldable pub flush_thinking : ParserState → Bool → Text → ThinkingParseResult
flush_thinking state is_first [] = default_result
flush_thinking in_thinking is_first buffer = record default_result {
  thinking_content = some buffer;
  is_first_thinking_chunk = is_first;
  is_last_thinking_chunk = true;
}
flush_thinking _ is_first buffer = record default_result { regular_content = some buffer }

unfoldable pub flush_initial : ThinkingParseResult → Text → ThinkingParseResult
flush_initial result [] = result
flush_initial result buffer = record result {
  regular_content = some (unwrap_or result.regular_content [] ++ buffer);
}

unfoldable pub finalize : ThinkingParser → ThinkingParseResult × ThinkingParser
unfolding flush_thinking flush_initial
finalize p = (
  flush_initial (flush_thinking p.state p.is_first p.thinking_buffer) p.initial_buffer,
  record p { thinking_buffer = []; initial_buffer = [] },
)

unfoldable pub reset : ThinkingParser → ThinkingParser
reset p = record p {
  state = pre_content;
  initial_buffer = [];
  thinking_buffer = [];
  open_tag = none;
  close_tag = none;
  is_first = true;
  thinking_block_found = false;
}

unfoldable pub process_for_output : ThinkingParser → Text → Bool → Bool → Option Text
process_for_output p thinking_content is_first is_last =
    if is_empty thinking_content
    then none
    else if p.handling_mode == "remove"
    then none
    else if p.handling_mode == "pass"
    then some (
        (if is_first then unwrap_or p.open_tag [] else [])
        ++ (thinking_content ++ (if is_last then unwrap_or p.close_tag [] else [])))
    else some thinking_content

-- What a caller that keeps the texts has at the end of a stream.
unfoldable pub run : ThinkingParser → List Text → Option (Text × Text × ThinkingParser)
run p [] = some ([], [], p)
run p (chunk ∷ chunks) = feed p chunk >>= λ (result, p').
    run p' chunks >>= λ (thinking, regular, q). some (
      unwrap_or result.thinking_content [] ++ thinking,
      unwrap_or result.regular_content [] ++ regular,
      q,
    )

unfoldable pub run_to_end : ThinkingParser → List Text → Option (Text × Text)
unfolding run
run_to_end p chunks = run p chunks >>= λ (thinking, regular, q).
    let last = (finalize q).0 in
    some
      (thinking ++ unwrap_or last.thinking_content [], regular ++ unwrap_or last.regular_content [])

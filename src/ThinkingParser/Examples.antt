-- ===== src/ThinkingParser/Examples.antt =====
-- Runs of the thinking parser, and its theorems at concrete streams.
use rkgw.Base.{List, [], ◌∷◌, some, ◌≡◌, refl}
use rkgw.Base.Chars.{Text, chars, trim_start, is_whitespace, starts_with, find, split_at, utf8_len}
use rkgw.ThinkingParser.{
  with_config, new, default_tags, find_tag, is_partial, could_be_tag_prefix, open_block, detect,
  handle_pre_content, close_block, last_boundary, send_cautiously, search_close, process_tag,
  process_thinking_buffer, handle_in_thinking, merge, after_pre_content, feed_in, feed,
  flush_thinking, flush_initial, finalize, run, run_to_end,
}
use rkgw.ThinkingParser.Whole.{IsParsed, concat, run_to_end-IsParsed}

abbrev stream : List Text
stream =
    chars "  <thi" ∷ chars "nk>plan a rout" ∷ chars "e</th" ∷ chars "ink>\n go" ∷ chars " on" ∷ []

stream_run : run_to_end new stream ≡ some (chars "plan a route", chars "go on")
unfolding run_to_end run finalize flush_initial flush_thinking feed feed_in after_pre_content merge
    handle_in_thinking process_thinking_buffer process_tag search_close send_cautiously
    last_boundary close_block handle_pre_content detect open_block could_be_tag_prefix is_partial
    find_tag new with_config trim_start is_whitespace starts_with find split_at utf8_len
stream_run = refl

run_to_end-IsParsed_example :
    (T : Text) × (R : Text) × (run_to_end (with_config "as_reasoning_content" 20) stream
      ≡ some (T, R))
    × IsParsed default_tags (concat stream) T R
run_to_end-IsParsed_example = run_to_end-IsParsed "as_reasoning_content" 20 stream

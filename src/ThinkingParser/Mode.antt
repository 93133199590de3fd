-- ===== src/ThinkingParser/Mode.antt =====
-- The parser keeps its handling mode.
use rkgw.Base.{
  ℕ, ◌+◌, ◌-◌, Bool, true, false, ◌&&◌, ◌||◌, not, [], ◌∷◌, ◌++◌, Option, none, some, ltb,
  if◌then◌else◌, unwrap_or, ◌≡◌, refl, ◌∙◌, ◌>>=◌,
}
use rkgw.Base.Chars.{Text, text_len, trim_start, find, split_at}
use rkgw.ThinkingParser.{
  ParserState, pre_content, in_thinking, streaming, ThinkingParseResult, ThinkingParser, find_tag,
  is_partial, could_be_tag_prefix, open_block, detect, handle_pre_content, close_block,
  last_boundary, send_cautiously, search_close, process_tag, process_thinking_buffer,
  handle_in_thinking, merge, is_in_thinking, after_pre_content, feed_in, feed,
}

abbrev pub KeepsMode : ThinkingParser → Option (ThinkingParseResult × ThinkingParser) → Type 0
KeepsMode p none = Unit
KeepsMode p (some (result, q)) = q.handling_mode ≡ p.handling_mode

bind-KeepsMode {ℓ} :
    {A : Type ℓ} (p : ThinkingParser) (o : Option A)
    (f : A → Option (ThinkingParseResult × ThinkingParser))
    → ((a : A) → KeepsMode p (f a))
    → KeepsMode p (o >>= f)
bind-KeepsMode p none f h = tt
bind-KeepsMode p (some a) f h = h a

if-KeepsMode :
    (p : ThinkingParser) (b : Bool) (x y : Option (ThinkingParseResult × ThinkingParser))
    → KeepsMode p x
    → KeepsMode p y
    → KeepsMode p (if b then x else y)
if-KeepsMode p true x y h k = h
if-KeepsMode p false x y h k = k

module _ (p : ThinkingParser) where
  send_cautiously-KeepsMode : KeepsMode p (send_cautiously p)
  unfolding send_cautiously
  send_cautiously-KeepsMode =
      let size = text_len p.thinking_buffer in
      let safe_split = unwrap_or (last_boundary 0 (size - p.max_tag_length) p.thinking_buffer) 0 in
      if-KeepsMode p (ltb p.max_tag_length size && ltb 0 safe_split) _ _
        (bind-KeepsMode p (split_at p.thinking_buffer safe_split) _ (λ s. refl)) refl

  search_close-KeepsMode : (tag : Text) (o : Option ℕ) → KeepsMode p (search_close p tag o)
  unfolding search_close close_block
  search_close-KeepsMode tag none = send_cautiously-KeepsMode
  search_close-KeepsMode tag (some idx) =
      bind-KeepsMode p (split_at p.thinking_buffer idx) _
        (λ s. bind-KeepsMode p (split_at p.thinking_buffer (idx + text_len tag)) _ (λ t. refl))

  process_tag-KeepsMode : (o : Option Text) → KeepsMode p (process_tag p o)
  unfolding process_tag
  process_tag-KeepsMode none = refl
  process_tag-KeepsMode (some tag) = search_close-KeepsMode tag (find p.thinking_buffer tag)

  process_thinking_buffer-KeepsMode : KeepsMode p (process_thinking_buffer p)
  unfolding process_thinking_buffer
  process_thinking_buffer-KeepsMode = process_tag-KeepsMode p.close_tag

  open_block-KeepsMode : (stripped tag : Text) → KeepsMode p (open_block p stripped tag)
  unfolding open_block
  open_block-KeepsMode stripped tag =
      bind-KeepsMode p (split_at tag 1) _
        (λ s. bind-KeepsMode p (split_at stripped (text_len tag)) _ (λ t. refl))

  detect-KeepsMode : (buffer : Text) (o : Option Text) → KeepsMode p (detect p buffer o)
  unfolding detect
  detect-KeepsMode buffer (some tag) = open_block-KeepsMode (trim_start buffer) tag
  detect-KeepsMode buffer none =
      let stripped = trim_start buffer in
      if-KeepsMode p (is_partial p.open_tags stripped) _ _ refl (
        if-KeepsMode p
          (ltb p.initial_buffer_size (text_len buffer) || not (could_be_tag_prefix p stripped)) _ _
          refl refl)

KeepsMode-trans :
    (p q : ThinkingParser) (o : Option (ThinkingParseResult × ThinkingParser))
    → q.handling_mode ≡ p.handling_mode
    → KeepsMode q o
    → KeepsMode p o
KeepsMode-trans p q none e h = tt
KeepsMode-trans p q (some (result, r)) e h = h ∙ e

after_pre_content-KeepsMode :
    (result : ThinkingParseResult) (q : ThinkingParser)
    → KeepsMode q (after_pre_content (result, q))
unfolding after_pre_content
after_pre_content-KeepsMode result q =
    if-KeepsMode q (is_in_thinking q.state && result.state_changed) _ _
      (merged (process_thinking_buffer q) (process_thinking_buffer-KeepsMode q)) refl
  where
    merged :
        (o : Option (ThinkingParseResult × ThinkingParser))
        → KeepsMode q o
        → KeepsMode q (o >>= λ (more, q'). some (merge result more, q'))
    merged none h = tt
    merged (some (more, q')) h = h

pub feed-KeepsMode : (p : ThinkingParser) (content : Text) → KeepsMode p (feed p content)
unfolding feed feed_in handle_pre_content handle_in_thinking
feed-KeepsMode p [] = refl
feed-KeepsMode p (c ∷ content) = in_state p.state
  where
    later :
        (o : Option (ThinkingParseResult × ThinkingParser))
        → KeepsMode p o
        → KeepsMode p (o >>= after_pre_content)
    later none h = tt
    later (some (result, q)) h =
        KeepsMode-trans p q (after_pre_content (result, q)) h (after_pre_content-KeepsMode result q)

    in_state : (s : ParserState) → KeepsMode p (feed_in s p (c ∷ content))
    in_state pre_content =
        let buffer = p.initial_buffer ++ (c ∷ content) in
        later (detect p buffer (find_tag p.open_tags (trim_start buffer)))
          (detect-KeepsMode p buffer (find_tag p.open_tags (trim_start buffer)))
    in_state in_thinking =
        let q = record p { thinking_buffer = p.thinking_buffer ++ (c ∷ content) } in
        process_thinking_buffer-KeepsMode q
    in_state streaming = refl

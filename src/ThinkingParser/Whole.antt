-- ===== src/ThinkingParser/Whole.antt =====
-- The parser over a whole stream: it never panics, and what it sends out is what the whole text
-- is read as, however it is cut into chunks.
use rkgw.Base.{
  ℕ, ◌≤◌, String, Bool, true, List, [], ◌∷◌, ◌++◌, none, some, arith, ◌≡◌, ◌⊎◌, inl, inr, refl, ap,
  subst, sym, ◌∙◌, unwrap_or, get_elem?, All, ◌>>=◌,
}
use rkgw.Base.Chars.{
  Text, chars, utf8_len, text_len, is_whitespace, trim_start, starts_with, find, shift,
  append_assoc, append-nil,
}
use rkgw.ThinkingParser.{
  ParserState, pre_content, in_thinking, streaming, ThinkingParseResult, ThinkingParser,
  default_result, default_tags, with_config, find_tag, is_partial, detect, handle_pre_content,
  after_pre_content, feed_in, feed, flush_thinking, flush_initial, finalize, run, run_to_end,
}
use rkgw.ThinkingParser.Closing.{
  open_of, close_of, IsReady, IsSearched, IsClosed, Buffers, Progress, before, inside, plain,
  closed,
}
use rkgw.ThinkingParser.Feeding.{detect_later, fed}

-- How a whole text is read. There is no block; or one stays open to the end; or one is closed.
abbrev pub IsParsed : List Text → Text → Text → Text → Type 0
IsParsed tags s T R =
    ((T ≡ []) × (R ≡ s) × (find_tag tags (trim_start s) ≡ none))
    ⊎ ((name : Text) × ((k : ℕ) × (get_elem? tags k ≡ some (open_of name)))
        × (((R ≡ []) × (trim_start s ≡ open_of name ++ T) × (find T (close_of name) ≡ none))
            ⊎ IsClosed name s T R))

abbrev pub concat : List Text → Text
concat [] = []
concat (chunk ∷ chunks) = chunk ++ concat chunks

IsReady-after :
    (p q : ThinkingParser)
    → IsReady p
    → q.open_tags ≡ p.open_tags
    → q.max_tag_length ≡ p.max_tag_length
    → IsReady q
IsReady-after p q ready tags size = record {
  some_tags = λ e. ready.some_tags (sym tags ∙ e);
  named = rw (tags, size) ready.named;
}

run_cons :
    (p p' q : ThinkingParser) (r : ThinkingParseResult) (chunk : Text) (chunks : List Text)
    (T R : Text)
    → feed p chunk ≡ some (r, p')
    → run p' chunks ≡ some (T, R, q)
    → run p (chunk ∷ chunks)
      ≡ some (unwrap_or r.thinking_content [] ++ T, unwrap_or r.regular_content [] ++ R, q)
unfolding run
run_cons p p' q r chunk chunks T R e e' = rw (e, run) (rw e' refl)

-- All chunks.
pub ran :
    (p : ThinkingParser)
    → IsReady p
    → (chunks : List Text) (s T R : Text) → Progress p s T R
    → (T' : Text) × (R' : Text) × (q : ThinkingParser) × (run p chunks ≡ some (T', R', q))
      × Progress q (s ++ concat chunks) (T ++ T') (R ++ R')
      × (q.open_tags ≡ p.open_tags)
unfolding run
ran p ready [] s T R h = ([], [], p, refl, rw (append-nil s, append-nil T, append-nil R) h, refl)
ran p ready (chunk ∷ chunks) s T R h =
    let (r, p', e, progress, tags, size) = fed p ready s T R chunk h in
    let t = unwrap_or r.thinking_content [] in
    let g = unwrap_or r.regular_content [] in
    let ready' : IsReady p' = IsReady-after p p' ready tags size in
    let (T', R', q, e', progress', tags') =
      ran p' ready' chunks (s ++ chunk) (T ++ t) (R ++ g) progress in
    (
      t ++ T',
      g ++ R',
      q,
      run_cons p p' q r chunk chunks T' R' e e',
      rw
          (
            sym (append_assoc s chunk (concat chunks)),
            sym (append_assoc T t T'),
            sym (append_assoc R g R'),
          )
          progress',
      tags' ∙ tags,
    )

flushed_block :
    (first : Bool) (B : Text)
    → let r = flush_thinking in_thinking first B in
      (unwrap_or r.thinking_content [] ≡ B) × (unwrap_or r.regular_content [] ≡ [])
unfolding flush_thinking
flushed_block first [] = (refl, refl)
flushed_block first (c ∷ B) = (refl, refl)

flushed_initial :
    (i : Text)
    → let r = flush_initial default_result i in
      (unwrap_or r.thinking_content [] ≡ []) × (unwrap_or r.regular_content [] ≡ i)
unfolding flush_initial
flushed_initial [] = (refl, refl)
flushed_initial (c ∷ i) = (refl, refl)

flushed_nothing :
    (state : ParserState) (first : Bool) → flush_thinking state first [] ≡ default_result
unfolding flush_thinking
flushed_nothing pre_content first = refl
flushed_nothing in_thinking first = refl
flushed_nothing streaming first = refl

unclosed :
    (T B close : Text) → IsSearched T B close → find B close ≡ none → find (T ++ B) close ≡ none
unclosed T B close h miss =
    ap (λ u. find (T ++ u) close) (sym (append-nil B))
    ∙ h []
    ∙ ap (λ u. shift (text_len T) (find u close)) (append-nil B)
    ∙ ap (shift (text_len T)) miss

module _ (p : ThinkingParser) where
  -- Without thinking content in the buffer, the end gives what the other buffer has.
  finalize_idle :
      (i : Text)
      → Buffers p i []
      → let last = (finalize p).0 in
        (unwrap_or last.thinking_content [] ≡ []) × (unwrap_or last.regular_content [] ≡ i)
  unfolding finalize
  finalize_idle i (initial, buffer) =
      rw (initial, buffer, finalize) (rw (flushed_nothing p.state p.is_first) (flushed_initial i))

  finalize_open :
      p.state ≡ in_thinking
      → p.initial_buffer ≡ []
      → let last = (finalize p).0 in
        (unwrap_or last.thinking_content [] ≡ p.thinking_buffer)
        × (unwrap_or last.regular_content [] ≡ [])
  unfolding finalize flush_initial
  finalize_open state initial =
      rw (initial, state, finalize) (flushed_block p.is_first p.thinking_buffer)

  -- The end of the stream.
  pub finished :
      (s T R : Text)
      → Progress p s T R
      → let last = (finalize p).0 in
        IsParsed p.open_tags s
          (T ++ unwrap_or last.thinking_content [])
          (R ++ unwrap_or last.regular_content [])
  finished s _ _ (before state buffers miss) =
      let (t, r) = finalize_idle s buffers in rw (t, r) (inl (refl, refl, miss))
  finished s T _ (inside name (tag, state, initial, _, cut, searched) miss) =
      let (t, r) = finalize_open state initial in
      rw (t, r)
        (inr
          (name, tag, inl (refl, cut, unclosed T p.thinking_buffer (close_of name) searched miss)))
  finished s _ _ (plain state buffers never) =
      let (t, r) = finalize_idle [] buffers in
      rw (t, r, append-nil s)
        (inl (
          refl,
          refl,
          subst (λ u. find_tag p.open_tags (trim_start u) ≡ none) (append-nil s) (never []),
        ))
  finished s T R (closed name tag state buffers block) =
      let (t, r) = finalize_idle [] buffers in
      rw (t, r, append-nil T, append-nil R) (inr (name, tag, inr block))

default_tags-named :
    All (λ t. (name : Text) × (t ≡ open_of name) × (text_len (close_of name) ≤ 22)) default_tags
unfolding utf8_len
default_tags-named = (
  (chars "thinking>", refl, omega arith),
  (
    (chars "think>", refl, omega arith),
    ((chars "reasoning>", refl, omega arith), ((chars "thought>", refl, omega arith), tt)),
  ),
)

pub empty_text :
    (find_tag default_tags (trim_start []) ≡ none)
    × (is_partial default_tags (trim_start []) ≡ true)
unfolding find_tag is_partial starts_with trim_start utf8_len
empty_text = (refl, refl)

pub with_config-IsReady : (mode : String) (n : ℕ) → IsReady (with_config mode n)
unfolding with_config utf8_len
with_config-IsReady mode n = record { some_tags = λ e. cc; named = default_tags-named }

run_to_end-lem :
    (p : ThinkingParser) (chunks : List Text) (T R : Text) (q : ThinkingParser)
    → run p chunks ≡ some (T, R, q)
    → let last = (finalize q).0 in
      run_to_end p chunks
      ≡ some (T ++ unwrap_or last.thinking_content [], R ++ unwrap_or last.regular_content [])
unfolding run_to_end
run_to_end-lem p chunks T R q e = rw (e, run_to_end) refl

-- However a text is cut into chunks, a new parser takes them all without a panic, and what it has
-- sent by the end of the stream as thinking content and as regular content is what the whole text
-- is read as. Either no opening tag stands first, and everything is regular; or all that follows
-- the tag is thinking content and it has no closing tag; or the thinking content ends at the first
-- closing tag, and behind that the regular content follows after some whitespace.
pub run_to_end-IsParsed :
    (mode : String) (n : ℕ) (chunks : List Text)
    → (T : Text) × (R : Text) × (run_to_end (with_config mode n) chunks ≡ some (T, R))
      × IsParsed default_tags (concat chunks) T R
unfolding with_config
run_to_end-IsParsed mode n chunks =
    let p = with_config mode n in
    let (T, R, q, e, progress, tags) =
      ran p (with_config-IsReady mode n) chunks [] [] [] (before refl (refl, refl) empty_text.0) in
    let last = (finalize q).0 in
    let thinking = T ++ unwrap_or last.thinking_content [] in
    let regular = R ++ unwrap_or last.regular_content [] in
    (
      thinking,
      regular,
      run_to_end-lem p chunks T R q e,
      subst (λ l. IsParsed l (concat chunks) thinking regular) tags
          (finished q (concat chunks) T R progress),
    )

trim_start-white : (w : Text) → All (λ c. is_whitespace c ≡ true) w → trim_start w ≡ trim_start []
unfolding trim_start
trim_start-white [] h = refl
trim_start-white (c ∷ w) (white, h) = rw white (trim_start-white w h)

-- Whitespace at the start of a stream, however long it is and whatever the buffer's size is, is
-- buffered and none of it is sent.
pub feed-whitespace :
    (mode : String) (n c : ℕ) (w : Text)
    → All (λ d. is_whitespace d ≡ true) (c ∷ w)
    → feed (with_config mode n) (c ∷ w)
      ≡ some (default_result, record (with_config mode n) { initial_buffer = c ∷ w })
unfolding feed feed_in handle_pre_content detect with_config after_pre_content
feed-whitespace mode n c w h =
    let white : trim_start (c ∷ w) ≡ trim_start [] = trim_start-white (c ∷ w) h in
    ap (λ o. detect (with_config mode n) (c ∷ w) o >>= after_pre_content)
      (ap (find_tag default_tags) white ∙ empty_text.0)
    ∙ ap (λ o. o >>= after_pre_content)
        (detect_later (with_config mode n) (c ∷ w)
          (ap (is_partial default_tags) white ∙ empty_text.1))

-- ===== src/ThinkingParser/Feeding.antt =====
-- One chunk of a stream, fed to a parser in any state of its search.
use rkgw.Base.{
  ℕ, Bool, true, false, ◌&&◌, ◌||◌, List, [], ◌∷◌, ◌++◌, Option, none, some, arith, ◌≡◌, ◌≢◌, inl,
  inr, refl, ap, subst, sym, ◌∙◌, if◌then◌else◌, Bool-cases, Option-cases, get_elem?, All-get_elem?,
  ◌>>=◌,
}
use rkgw.Base.Chars.{
  Text, utf8_len, text_len, trim_start, find, shift, split_at, split_at-append, append_assoc,
  append-nil, starts_with_rest, shift_zero, utf8_len-positive,
}
use rkgw.ThinkingParser.{
  pre_content, in_thinking, streaming, ThinkingParseResult, ThinkingParser, default_result,
  find_tag, is_partial, could_be_tag_prefix, open_block, detect, handle_pre_content,
  handle_in_thinking, merge, or_else, is_in_thinking, after_pre_content, feed_in, feed,
}
use rkgw.ThinkingParser.Search.{find_more, trim_start_more, find_tag-some, find_tag_never, no_tag}
use rkgw.ThinkingParser.Closing.{
  open_of, close_of, IsReady, Searching, IsClosed, Buffers, Progress, before, inside, plain, closed,
  Fed, process_searching,
}

or_else-none : (o : Option Text) → or_else o none ≡ o
or_else-none none = refl
or_else-none (some t) = refl

abbrev opened_parser : ThinkingParser → Text → Text → ThinkingParser
opened_parser p name rest = record p {
  state = in_thinking;
  open_tag = some (open_of name);
  close_tag = some (close_of name);
  thinking_block_found = true;
  thinking_buffer = rest;
  initial_buffer = [];
}

abbrev changed : ThinkingParseResult
changed = record default_result { state_changed = true }

open_block_lem :
    (p : ThinkingParser) (name rest : Text)
    → open_block p (open_of name ++ rest) (open_of name) ≡ some (changed, opened_parser p name rest)
unfolding open_block split_at utf8_len
open_block_lem p name rest = rw (split_at-append (open_of name) rest) refl

or_true {ℓ} : {A : Type ℓ} (b : Bool) (x y : A) → (if b || true then x else y) ≡ x
or_true true x y = refl
or_true false x y = refl

after_unchanged :
    (r : ThinkingParseResult) (p : ThinkingParser)
    → (is_in_thinking p.state && r.state_changed) ≡ false
    → after_pre_content (r, p) ≡ some (r, p)
unfolding after_pre_content
after_unchanged r p h = rw h refl

in_thinking_and_false : (b : Bool) → (b && false) ≡ false
in_thinking_and_false true = refl
in_thinking_and_false false = refl

some_first : (tags : List Text) → tags ≢ [] → (t : Text) × (rest : List Text) × (tags ≡ t ∷ rest)
some_first [] h = absurd (h refl)
some_first (t ∷ rest) h = (t, rest, refl)

Fed-path :
    (p : ThinkingParser) (s T R : Text) {o o' : Option (ThinkingParseResult × ThinkingParser)}
    → o ≡ o'
    → Fed p o' s T R
    → Fed p o s T R
Fed-path p s T R e h = subst (λ a. Fed p a s T R) (sym e) h

abbrev plain_answer : ThinkingParser → Text → ThinkingParseResult × ThinkingParser
plain_answer p s = (
  record changed { regular_content = some s },
  record p { state = streaming; initial_buffer = [] },
)

detect_nothing :
    (p : ThinkingParser) (s : Text)
    → is_partial p.open_tags (trim_start s) ≡ false
    → could_be_tag_prefix p (trim_start s) ≡ false
    → detect p s none ≡ some (plain_answer p s)
unfolding detect
detect_nothing p s part dead = rw (part, dead, detect) (or_true _ _ _)

pub detect_later :
    (p : ThinkingParser) (s : Text)
    → is_partial p.open_tags (trim_start s) ≡ true
    → detect p s none ≡ some (default_result, record p { initial_buffer = s })
unfolding detect
detect_later p s part = rw (part, detect) refl

module _ (p : ThinkingParser) (ready : IsReady p) where
  -- An opening tag is there: the buffer behind it is searched at once.
  opened :
      (s tag : Text)
      → find_tag p.open_tags (trim_start s) ≡ some tag
      → Fed p (open_block p (trim_start s) tag >>= after_pre_content) s [] []
  unfolding after_pre_content merge
  opened s tag found =
      let ((k, there), starts) = find_tag-some p.open_tags (trim_start s) tag found in
      let (name, named, fits) = All-get_elem? _ p.open_tags k tag ready.named there in
      let (rest, split) = starts_with_rest (trim_start s) tag starts in
      let q = opened_parser p name rest in
      let cut = split ∙ ap (λ t. t ++ rest) named in
      let (r, q', e, progress, tags, size) =
        process_searching q name s []
          (
            (k, there ∙ ap some named),
            refl,
            refl,
            refl,
            cut,
            (λ more. shift_zero (find (rest ++ more) (close_of name))),
          )
          fits in
      (
        merge changed r,
        q',
        ap (λ o. o >>= after_pre_content)
              (ap (open_block p (trim_start s)) named
                ∙ ap (λ u. open_block p u (open_of name)) cut
                ∙ open_block_lem p name rest)
            ∙ ap (λ o. o >>= λ (r, p'). some (merge changed r, p')) e,
        rw (or_else-none r.thinking_content, or_else-none r.regular_content) progress,
        tags,
        size,
      )

  -- No tag can come any more.
  no_block :
      (s : Text)
      → p.thinking_buffer ≡ []
      → find_tag p.open_tags (trim_start s) ≡ none
      → is_partial p.open_tags (trim_start s) ≡ false
      → Fed p (detect p s none >>= after_pre_content) s [] []
  unfolding detect after_pre_content
  no_block s buffer miss part =
      let (t, tags, some_tag) = some_first p.open_tags ready.some_tags in
      let (name, named, _) =
        All-get_elem? _ p.open_tags 0 t ready.named (ap (λ l. get_elem? l 0) some_tag) in
      let ((c, x, stays), dead) =
        no_tag p t tags (trim_start s) some_tag
          (omega (arith, ap text_len named, utf8_len-positive 60)) miss part in
      (
        (plain_answer p s).0,
        (plain_answer p s).1,
        ap (λ o. o >>= after_pre_content) (detect_nothing p s part dead),
        plain refl (refl, buffer)
            (λ more.
              ap (find_tag p.open_tags)
                (trim_start_more s more stays ∙ ap (λ u. u ++ more) (sym stays))
              ∙ find_tag_never p.open_tags (trim_start s) more miss part),
        refl,
        refl,
      )

  -- A tag may still come: everything stays in the buffer.
  waiting :
      (s : Text)
      → p.state ≡ pre_content
      → p.thinking_buffer ≡ []
      → find_tag p.open_tags (trim_start s) ≡ none
      → is_partial p.open_tags (trim_start s) ≡ true
      → Fed p (detect p s none >>= after_pre_content) s [] []
  unfolding detect
  waiting s state buffer miss part = (
    default_result,
    record p { initial_buffer = s },
    ap (λ o. o >>= after_pre_content) (detect_later p s part)
        ∙ after_unchanged default_result (record p { initial_buffer = s })
            (in_thinking_and_false _),
    before state (refl, buffer) miss,
    refl,
    refl,
  )

  Fed-before :
      (s : Text) (c : ℕ) (content : Text)
      → p.state ≡ pre_content
      → Buffers p s []
      → Fed p (feed p (c ∷ content)) (s ++ (c ∷ content)) [] []
  unfolding feed feed_in handle_pre_content
  Fed-before s c content state (initial, buffer) =
      let u = s ++ (c ∷ content) in
      let path =
        ap (λ st. feed_in st p (c ∷ content)) state
        ∙ ap
            (λ b.
              detect p (b ++ (c ∷ content)) (find_tag p.open_tags (trim_start (b ++ (c ∷ content))))
              >>= after_pre_content)
            initial in
      Fed-path p u [] [] path (elim (Option-cases (find_tag p.open_tags (trim_start u))) [
        | inr (tag, found) ↦
            Fed-path p u [] [] (ap (λ o. detect p u o >>= after_pre_content) found)
              (opened u tag found)
        | inl miss ↦
            Fed-path p u [] [] (ap (λ o. detect p u o >>= after_pre_content) miss)
              (elim (Bool-cases (is_partial p.open_tags (trim_start u))) [
                | inl part ↦ waiting u state buffer miss part
                | inr part ↦ no_block u buffer miss part
              ])
      ])

  Fed-inside :
      (name s T : Text) (c : ℕ) (content : Text)
      → Searching p name s T
      → Fed p (feed p (c ∷ content)) (s ++ (c ∷ content)) T []
  unfolding feed feed_in handle_in_thinking
  Fed-inside name s T c content ((k, there), state, initial, close_tag, cut, searched) =
      let more = c ∷ content in
      let (_, same, fits) = All-get_elem? _ p.open_tags k (open_of name) ready.named there in
      Fed-path p (s ++ more) T [] (ap (λ st. feed_in st p more) state) (
        process_searching (record p { thinking_buffer = p.thinking_buffer ++ more }) name
          (s ++ more) T
          (
            (k, there),
            state,
            initial,
            close_tag,
            trim_start_more s more cut
                ∙ append_assoc (open_of name) (T ++ p.thinking_buffer) more
                ∙ ap (λ u. open_of name ++ u) (append_assoc T p.thinking_buffer more),
            (λ later.
                subst
                  (λ u. find (T ++ u) (close_of name) ≡ shift (text_len T) (find u (close_of name)))
                  (sym (append_assoc p.thinking_buffer more later)) (searched (more ++ later))),
          )
          (omega (arith, fits, ap text_len same)))

-- More regular content behind a closed block.
IsClosed-more :
    (name s T R more : Text) → IsClosed name s T R → IsClosed name (s ++ more) T (R ++ more)
IsClosed-more name s T R more (w, cut, white, found) =
    let onto : (T ++ (close_of name ++ (w ++ R))) ++ more
        ≡ T ++ (close_of name ++ (w ++ (R ++ more))) =
      append_assoc T (close_of name ++ (w ++ R)) more
      ∙ ap (λ u. T ++ u) (append_assoc (close_of name) (w ++ R) more)
      ∙ ap (λ u. T ++ (close_of name ++ u)) (append_assoc w R more) in
    (
      w,
      trim_start_more s more cut
          ∙ append_assoc (open_of name) (T ++ (close_of name ++ (w ++ R))) more
          ∙ ap (λ u. open_of name ++ u) onto,
      white,
      ap (λ u. find u (close_of name)) (sym onto)
          ∙ find_more (T ++ (close_of name ++ (w ++ R))) (close_of name) more (text_len T) found,
    )

module _ (p : ThinkingParser) (s : Text) where
  Fed-nothing : (T R : Text) → Progress p s T R → Fed p (feed p []) (s ++ []) T R
  unfolding feed
  Fed-nothing T R h =
      (default_result, p, refl, rw (append-nil s, append-nil T, append-nil R) h, refl, refl)

  Fed-streaming :
      (T R : Text) (c : ℕ) (content : Text)
      → p.state ≡ streaming
      → Progress p (s ++ (c ∷ content)) T (R ++ (c ∷ content))
      → Fed p (feed p (c ∷ content)) (s ++ (c ∷ content)) T R
  unfolding feed feed_in
  Fed-streaming T R c content state h = (
    record default_result { regular_content = some (c ∷ content) },
    p,
    ap (λ st. feed_in st p (c ∷ content)) state,
    subst (λ u. Progress p (s ++ (c ∷ content)) u (R ++ (c ∷ content))) (sym (append-nil T)) h,
    refl,
    refl,
  )

-- One chunk: there is an answer, and the stream is further on by that chunk.
pub fed :
    (p : ThinkingParser)
    → IsReady p
    → (s T R content : Text) → Progress p s T R
    → Fed p (feed p content) (s ++ content) T R
fed p ready s T R [] h = Fed-nothing p s T R h
fed p ready s _ _ (c ∷ content) (before state buffers miss) =
    Fed-before p ready s c content state buffers
fed p ready s T _ (c ∷ content) (inside name searching miss) =
    Fed-inside p ready name s T c content searching
fed p ready s _ _ (c ∷ content) (plain state buffers never) =
    Fed-streaming p s [] s c content state (
      plain state buffers (λ more.
        ap (λ u. find_tag p.open_tags (trim_start u)) (append_assoc s (c ∷ content) more)
        ∙ never ((c ∷ content) ++ more)))
fed p ready s T R (c ∷ content) (closed name tag state buffers block) =
    Fed-streaming p s T R c content state
      (closed name tag state buffers (IsClosed-more name s T R (c ∷ content) block))

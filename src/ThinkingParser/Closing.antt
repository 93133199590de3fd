-- ===== src/ThinkingParser/Closing.antt =====
-- The buffer of an open block: where its closing tag is, and what is sent before that is there.
use rkgw.Base.{
  ℕ, ◌+◌, ◌-◌, ◌≤◌, Bool, true, false, ◌&&◌, [], ◌∷◌, ◌++◌, Option, none, some, arith, ◌≡◌, ◌≢◌,
  ◌⊎◌, inl, inr, refl, ap, subst, sym, ◌∙◌, ltb, if◌then◌else◌, unwrap_or, Bool-cases, Option-cases,
  get_elem?, All, ◌>>=◌,
}
use rkgw.Base.Chars.{
  Text, chars, text_len, is_whitespace, trim_start, find, shift, split_at, split_at-append,
  append_assoc, append-nil, text_len-append, find-some, find_past, shift-shift,
}
use rkgw.ThinkingParser.{
  pre_content, in_thinking, streaming, ThinkingParseResult, ThinkingParser, default_result,
  find_tag, unless_empty, close_block, last_boundary, send_cautiously, process_tag, search_close,
  process_thinking_buffer,
}
use rkgw.ThinkingParser.Search.{trim_start_split, last_boundary_cases, find_rest}

abbrev pub open_of : Text → Text
open_of name = 60 ∷ name

abbrev pub close_of : Text → Text
close_of name = chars "</" ++ name

-- The opening tags are there, and each is `<` and a name that the retained bytes have room for.
pub record IsReady (p : ThinkingParser) : Type 0 where
  pub some_tags : p.open_tags ≢ []
  pub named :
      All
        (λ t. (name : Text) × (t ≡ open_of name) × (text_len (close_of name) ≤ p.max_tag_length))
        p.open_tags

abbrev pub IsTag : ThinkingParser → Text → Type 0
IsTag p name = (k : ℕ) × (get_elem? p.open_tags k ≡ some (open_of name))

-- The text is `T` and `B`, and the closing tag is to be searched from `B` on, whatever follows.
abbrev pub IsSearched : Text → Text → Text → Type 0
IsSearched T B close =
    (more : Text) → find (T ++ (B ++ more)) close ≡ shift (text_len T) (find (B ++ more) close)

-- The text consumed is `s`, and the thinking content sent is `T`; the rest of it is in the buffer.
abbrev pub Searching : ThinkingParser → Text → Text → Text → Type 0
Searching p name s T =
    IsTag p name
    × (p.state ≡ in_thinking)
    × (p.initial_buffer ≡ [])
    × (p.close_tag ≡ some (close_of name))
    × (trim_start s ≡ open_of name ++ (T ++ p.thinking_buffer))
    × IsSearched T p.thinking_buffer (close_of name)

-- A closed block: the thinking content ends at the first closing tag, and whitespace after it is
-- left out.
abbrev pub IsClosed : Text → Text → Text → Text → Type 0
IsClosed name s T R =
    (w : Text) × (trim_start s ≡ open_of name ++ (T ++ (close_of name ++ (w ++ R))))
    × All (λ c. is_whitespace c ≡ true) w
    × (find (T ++ (close_of name ++ (w ++ R))) (close_of name) ≡ some (text_len T))

abbrev pub Buffers : ThinkingParser → Text → Text → Type 0
Buffers p first second = (p.initial_buffer ≡ first) × (p.thinking_buffer ≡ second)

-- Where a stream stands after the text `s`, with `T` and `R` sent.
pub data Progress (p : ThinkingParser) (s : Text) : Text → Text → Type 0 where
  before :
      p.state ≡ pre_content
      → Buffers p s []
      → find_tag p.open_tags (trim_start s) ≡ none
      → Progress p s [] []
  inside :
      (name : Text) {T : Text}
      → Searching p name s T
      → find p.thinking_buffer (close_of name) ≡ none
      → Progress p s T []
  plain :
      p.state ≡ streaming
      → Buffers p [] []
      → ((more : Text) → find_tag p.open_tags (trim_start (s ++ more)) ≡ none)
      → Progress p s [] s
  closed :
      (name : Text) {T R : Text}
      → IsTag p name
      → p.state ≡ streaming
      → Buffers p [] []
      → IsClosed name s T R
      → Progress p s T R

-- A step's answer: there is one, and the stream has come so much further.
abbrev pub Fed :
    ThinkingParser → Option (ThinkingParseResult × ThinkingParser) → Text → Text → Text → Type 0
Fed p answer s T R =
    (r : ThinkingParseResult) × (q : ThinkingParser) × (answer ≡ some (r, q))
    × Progress q s (T ++ unwrap_or r.thinking_content []) (R ++ unwrap_or r.regular_content [])
    × (q.open_tags ≡ p.open_tags)
    × (q.max_tag_length ≡ p.max_tag_length)

unless_empty-lem : (x : Text) → unwrap_or (unless_empty x) [] ≡ x
unless_empty-lem [] = refl
unless_empty-lem (c ∷ x) = refl

-- The slices before and behind an occurrence.
slice_behind :
    (x t y : Text) → split_at (x ++ (t ++ y)) (text_len x + text_len t) ≡ some (x ++ t, y)
slice_behind x t y =
    ap (λ u. split_at u (text_len x + text_len t)) (sym (append_assoc x t y))
    ∙ ap (split_at ((x ++ t) ++ y)) (sym (text_len-append x t))
    ∙ split_at-append (x ++ t) y

searched_here :
    (T B close : Text) {i : ℕ}
    → IsSearched T B close
    → find B close ≡ some i
    → find (T ++ B) close ≡ some (text_len T + i)
searched_here T B close {i} h hit =
    ap (λ u. find (T ++ u) close) (sym (append-nil B))
    ∙ h []
    ∙ ap (λ u. shift (text_len T) (find u close)) (append-nil B)
    ∙ ap (shift (text_len T)) hit

IsClosed-here :
    (name s T B x y : Text)
    → trim_start s ≡ open_of name ++ (T ++ B)
    → B ≡ x ++ (close_of name ++ y)
    → IsSearched T B (close_of name)
    → find B (close_of name) ≡ some (text_len x)
    → IsClosed name s (T ++ x) (trim_start y)
IsClosed-here name s T B x y cut split h hit =
    let (w, y_split, white) = trim_start_split y in
    let whole : T ++ B ≡ (T ++ x) ++ (close_of name ++ (w ++ trim_start y)) =
      ap (λ u. T ++ u) split
      ∙ sym (append_assoc T x (close_of name ++ y))
      ∙ ap (λ u. (T ++ x) ++ (close_of name ++ u)) y_split in
    (
      w,
      cut ∙ ap (λ u. open_of name ++ u) whole,
      white,
      ap (λ u. find u (close_of name)) (sym whole)
          ∙ searched_here T B (close_of name) h hit
          ∙ ap some (sym (text_len-append T x)),
    )

abbrev sent_part : ThinkingParser → Text → Text → ThinkingParseResult × ThinkingParser
sent_part p x y = (
  record default_result { thinking_content = some x; is_first_thinking_chunk = p.is_first },
  record p { thinking_buffer = y; is_first = false },
)

send_lem :
    (p : ThinkingParser) (n : ℕ) (b : Bool) (x y : Text)
    → p.thinking_buffer ≡ x ++ y
    → n ≡ text_len x
    → (if b
        then (split_at p.thinking_buffer n >>= λ (send_part, kept).
            some (sent_part p send_part kept))
        else some (default_result, p))
      ≡ (if b then some (sent_part p x y) else some (default_result, p))
send_lem p n false x y split at_x = refl
send_lem p n true x y split at_x = rw (split, at_x) (rw (split_at-append x y) refl)

and_false {ℓ} : {A : Type ℓ} (a b : A) (t : Bool) → (if t && false then a else b) ≡ b
and_false a b true = refl
and_false a b false = refl

-- What sending leaves behind: everything, or at least the bytes that are to be kept.
send_cases :
    (p : ThinkingParser)
    → (send_cautiously p ≡ some (default_result, p))
      ⊎ ((x : Text) × (y : Text) × (p.thinking_buffer ≡ x ++ y)
          × (p.max_tag_length ≤ text_len y)
          × (send_cautiously p ≡ some (sent_part p x y)))
unfolding send_cautiously
send_cases p =
    let size = text_len p.thinking_buffer in
    elim (Option-cases (last_boundary 0 (size - p.max_tag_length) p.thinking_buffer)) [
      | inl e ↦ inl (
          rw (e, send_cautiously) (send_lem p 0 _ [] p.thinking_buffer refl refl ∙ and_false _ _ _))
      | inr (n, e) ↦
          let (x, y, split, at_x, le) =
            last_boundary_cases 0 (size - p.max_tag_length) p.thinking_buffer e in
          elim (Bool-cases (ltb p.max_tag_length size && ltb 0 n)) [
            | inl test ↦ inr (
              x,
              y,
              split,
              ground (arith, ap text_len split, text_len-append x y),
              rw (e, send_cautiously) (send_lem p n _ x y split (omega arith) ∙ rw test refl),
            )
            | inr test ↦ inl (rw (e, send_cautiously) (rw test refl))
          ]
    ]

both_slices :
    (p : ThinkingParser) (o₁ o₂ : Option (Text × Text)) (x y : Text) {u v : Text}
    → o₁ ≡ some (x, u)
    → o₂ ≡ some (v, y)
    → (o₁ >>= λ (thinking, from_tag).
        o₂ >>= λ (upto, after_tag). some (close_block p thinking after_tag))
      ≡ some (close_block p x y)
both_slices p o₁ o₂ x y e f = rw (e, f) refl

-- What was sent need not be searched again.
IsSearched-on :
    (T x y close : Text)
    → find (x ++ y) close ≡ none
    → text_len close ≤ text_len y
    → IsSearched T (x ++ y) close
    → IsSearched (T ++ x) y close
IsSearched-on T x y close miss fits h more =
    ap (λ u. find u close) (append_assoc T x (y ++ more))
    ∙ ap (λ u. find (T ++ u) close) (sym (append_assoc x y more))
    ∙ h more
    ∙ ap (λ u. shift (text_len T) (find u close)) (append_assoc x y more)
    ∙ ap (shift (text_len T)) (find_past x y close more miss fits)
    ∙ shift-shift (text_len T) (text_len x) (find (y ++ more) close)
    ∙ ap (λ n. shift n (find (y ++ more) close)) (sym (text_len-append T x))

module _ (p : ThinkingParser) (name s T : Text) (h : Searching p name s T) where
  abbrev close : Text
  close = close_of name

  closed_answer :
      (x y : Text)
      → p.close_tag ≡ some close
      → find p.thinking_buffer close ≡ some (text_len x)
      → p.thinking_buffer ≡ x ++ (close ++ y)
      → process_thinking_buffer p ≡ some (close_block p x y)
  unfolding process_thinking_buffer process_tag search_close
  closed_answer x y tag hit split =
      ap (process_tag p) tag
      ∙ ap (search_close p close) hit
      ∙ both_slices p _ _ x y
          (ap (λ u. split_at u (text_len x)) split ∙ split_at-append x (close ++ y))
          (ap (λ u. split_at u (text_len x + text_len close)) split ∙ slice_behind x close y)

  -- The closing tag is in the buffer.
  close_found :
      (i : ℕ) → find p.thinking_buffer close ≡ some i → Fed p (process_thinking_buffer p) s T []
  unfolding close_block
  close_found i hit =
      let (tag, _, initial, close_tag, cut, searched) = h in
      let (x, y, split, at_x) = find-some p.thinking_buffer close i hit in
      let hit' = hit ∙ ap some at_x in
      let (result, q) = close_block p x y in
      (
        result,
        q,
        closed_answer x y close_tag hit' split,
        rw (unless_empty-lem x, unless_empty-lem (trim_start y))
            (closed name tag refl (initial, refl)
              (IsClosed-here name s T p.thinking_buffer x y cut split searched hit')),
        refl,
        refl,
      )

  -- It is not: what is sent leaves enough bytes behind.
  close_missed :
      text_len close ≤ p.max_tag_length
      → find p.thinking_buffer close ≡ none
      → Fed p (send_cautiously p) s T []
  unfolding send_cautiously
  close_missed fits miss =
      let (tag, state, initial, close_tag, cut, searched) = h in
      elim (send_cases p) [
        | inl e ↦ (
          default_result,
          p,
          e,
          subst (λ u. Progress p s u []) (sym (append-nil T)) (inside name h miss),
          refl,
          refl,
        )
        | inr (x, y, split, kept, e) ↦
            let miss' : find (x ++ y) close ≡ none = subst (λ u. find u close ≡ none) split miss in
            let (result, q) = sent_part p x y in
            (
              result,
              q,
              e,
              inside name
                  (
                    tag,
                    state,
                    initial,
                    close_tag,
                    cut
                        ∙ ap (λ u. open_of name ++ (T ++ u)) split
                        ∙ ap (λ u. open_of name ++ u) (sym (append_assoc T x y)),
                    IsSearched-on T x y close miss' (omega (arith, fits, kept))
                        (subst (λ u. IsSearched T u close) split searched),
                  )
                  (find_rest x y close miss'),
              refl,
              refl,
            )
      ]

  pub process_searching :
      text_len close ≤ p.max_tag_length → Fed p (process_thinking_buffer p) s T []
  unfolding process_thinking_buffer process_tag search_close
  process_searching fits = elim (Option-cases (find p.thinking_buffer close)) [
    | inl miss ↦
        let (result, q, e, progress, tags, size) = close_missed fits miss in
        let (_, _, _, close_tag, _, _) = h in
        (
          result,
          q,
          ap (process_tag p) close_tag ∙ ap (search_close p close) miss ∙ e,
          progress,
          tags,
          size,
        )
    | inr (i, hit) ↦ close_found i hit
  ]

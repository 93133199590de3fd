-- ===== src/Streaming/Sse/Stream.antt =====
-- A stream of chunks against the lines of its whole text.
use rkgw.Base.{
  ℕ, suc, List, [], ◌∷◌, ◌++◌, map, Option, none, some, length, append_assoc, append-nil, ◌≡◌, refl,
  ap, sym, ◌∙◌, Option-cases, inl, inr, arith,
}
use rkgw.Base.Chars.{Text}
use rkgw.Base.Utf8.{from_utf8}
use rkgw.Converters.Messages.{Json}
use rkgw.Streaming.Sse.{
  Chunk, bytes, broken, StreamError, stream_error, invalid_utf8, event, failure, complete,
  stream_from, parse_sse_stream,
}
use rkgw.Streaming.Sse.Lines.{
  continue, continue-then_read, complete-append, complete_rest, read_lines, read_lines-append,
  read_lines-left, process_lines-complete,
}

abbrev append_texts : Option Text → Option Text → Option Text
append_texts none later = none
append_texts (some text) none = none
append_texts (some text) (some later) = some (text ++ later)

-- The text of chunks that are all read and are all UTF-8, each by itself.
unfoldable pub decoded_text : List Chunk → Option Text
decoded_text [] = some []
decoded_text (broken ∷ chunks) = none
decoded_text (bytes bs ∷ chunks) = append_texts (from_utf8 bs) (decoded_text chunks)

decoded_text-bytes :
    (first later : Option Text) (text : Text)
    → append_texts first later ≡ some text
    → (u : Text) × (w : Text) × (first ≡ some u) × (later ≡ some w) × (text ≡ u ++ w)
decoded_text-bytes none later text h = absurd (cc)
decoded_text-bytes (some u) none text h = absurd (cc)
decoded_text-bytes (some u) (some w) text h = (u, w, refl, refl, cc)

-- The error that a chunk ends the stream with.
unfoldable pub error_of : Chunk → Option StreamError
error_of broken = some stream_error
error_of (bytes bs) = elim (from_utf8 bs) [ none ↦ some invalid_utf8 | some text ↦ none ]

module _ (from_str : Text → Option Json) where
  stream_from-bytes :
      (buffer : Text) (bs : List ℕ) (u : Text) (chunks : List Chunk)
      → from_utf8 bs ≡ some u
      → let part = complete (buffer ++ u) in
        stream_from from_str buffer (bytes bs ∷ chunks)
        ≡ continue
            (read_lines from_str part.0 (some part.1))
            (λ rest. stream_from from_str rest chunks)
  unfolding stream_from
  stream_from-bytes buffer bs u chunks e =
      rw (e, stream_from)
        (ap (λ r. continue r (λ rest. stream_from from_str rest chunks))
          (process_lines-complete from_str (suc (length (buffer ++ u))) (buffer ++ u)
            (omega arith)))

  -- What stands between the chunks that are read and the rest of the stream.
  stream_from-decoded :
      (good tail : List Chunk) (buffer text : Text)
      → complete buffer ≡ ([], buffer)
      → decoded_text good ≡ some text
      → let full = complete (buffer ++ text) in
        stream_from from_str buffer (good ++ tail)
        ≡ continue
            (read_lines from_str full.0 (some full.1))
            (λ rest. stream_from from_str rest tail)
  unfolding decoded_text read_lines
  stream_from-decoded [] tail buffer text clean h =
      let empty : text ≡ [] = cc in rw (empty, append-nil buffer, clean) refl
  stream_from-decoded (broken ∷ good) tail buffer text clean h = absurd (cc)
  stream_from-decoded (bytes bs ∷ good) tail buffer text clean h =
      let (u, w, e, f, joined) = decoded_text-bytes (from_utf8 bs) (decoded_text good) text h in
      let part = complete (buffer ++ u) in
      let later = complete (part.1 ++ w) in
      let step = stream_from-decoded good tail part.1 w (complete_rest (buffer ++ u)) f in
      stream_from-bytes buffer bs u (good ++ tail) e
      ∙ continue-then_read (read_lines from_str part.0 (some part.1))
          (read_lines from_str later.0 (some later.1)) part.1
          (λ rest. stream_from from_str rest tail)
          (λ rest. stream_from from_str rest (good ++ tail))
          (read_lines-left from_str part.0 part.1) step
      ∙ ap (λ r. continue r (λ rest. stream_from from_str rest tail))
          (sym (read_lines-append from_str part.0 later.0 part.1 (some later.1)))
      ∙ ap
          (λ (full : List Text × Text).
            continue (read_lines from_str full.0 (some full.1))
              (λ rest. stream_from from_str rest tail))
          (sym (
            ap complete (ap (λ t. buffer ++ t) joined ∙ sym (append_assoc buffer u w))
            ∙ complete-append (buffer ++ u) w))

  -- A chunk that cannot be read, or that is not UTF-8 by itself, ends the stream: the complete lines
  -- before it are yielded, then its error, and nothing of what follows; behind the sentinel there is
  -- no error either.
  pub parse_sse_stream-failure :
      (good more : List Chunk) (bad : Chunk) (text : Text) (error : StreamError)
      → decoded_text good ≡ some text
      → error_of bad ≡ some error
      → let (values, left) = read_lines from_str (complete text).0 (some (complete text).1) in
        parse_sse_stream from_str (good ++ (bad ∷ more))
        ≡ map event values ++ (elim left [ none ↦ [] | some rest ↦ failure error ∷ [] ])
  unfolding parse_sse_stream stream_from error_of
  parse_sse_stream-failure good more bad text error h bad_is =
      stream_from-decoded good (bad ∷ more) [] text (complete_rest []) h ∙ (λ i.
        continue (read_lines from_str (complete text).0 (some (complete text).1))
          (λ rest. stopped rest bad bad_is i))
    where
      stopped :
          (rest : Text) (b : Chunk)
          → error_of b ≡ some error
          → stream_from from_str rest (b ∷ more) ≡ failure error ∷ []
      stopped rest broken e = ap (λ x. failure x ∷ []) (cc)
      stopped rest (bytes bs) e = elim (Option-cases (from_utf8 bs)) [
        | inl f ↦ rw (f, stream_from) (ap (λ x. failure x ∷ []) (cc (rw (f, error_of) at e)))
        | inr (t, f) ↦ absurd (cc (rw (f, error_of) at e))
      ]

-- ===== src/Streaming/Extract/Chunks.antt =====
-- The events of a stream do not depend on where its text is cut into chunks.
use rkgw.Base.{
  ℕ, zero, suc, ◌<◌, List, [], ◌∷◌, ◌++◌, Option, none, some, length, length-append, ◌≡◌, ◌⊎◌, inl,
  inr, refl, ap, sym, ◌∙◌, subst, min, append_assoc, append-nil, Option-cases, arith,
}
use rkgw.Base.Chars.{Text, text_len, split_at}
use rkgw.Base.Utf8.{from_utf8_lossy}
use rkgw.Converters.Messages.{Json}
use rkgw.Streaming.Extract.{
  Extraction, waiting, panicked, extracted, extract, push_event, after_cut, extract_all, feed,
}
use rkgw.Streaming.Extract.Located.{locate, extract-located}
use rkgw.Streaming.Extract.Cut.{extract-append, extract-shorter, extract-ne-panicked}

Extraction-cases :
    (e : Extraction)
    → (e ≡ waiting)
      ⊎ ((e ≡ panicked) ⊎ ((json_str : Text) × (rest : Text) × (e ≡ extracted json_str rest)))
Extraction-cases waiting = inl refl
Extraction-cases panicked = inr (inl refl)
Extraction-cases (extracted json_str rest) = inr (inr (json_str, rest, refl))

abbrev pub prepend : List Json → Option (List Json × Text) → Option (List Json × Text)
prepend events none = none
prepend events (some (more, rest)) = some (events ++ more, rest)

abbrev pub then_events :
    Option (List Json × Text) → (Text → Option (List Json × Text)) → Option (List Json × Text)
then_events none k = none
then_events (some (events, rest)) k = prepend events (k rest)

prepend-nil : (o : Option (List Json × Text)) → prepend [] o ≡ o
prepend-nil none = refl
prepend-nil (some (events, rest)) = refl

push_event-prepend :
    (json : Json) (events : List Json) (o : Option (List Json × Text))
    → push_event json (prepend events o) ≡ prepend (json ∷ events) o
push_event-prepend json events none = refl
push_event-prepend json events (some (more, rest)) = refl

same_rest :
    (a b : List Json) (s t : Text)
    → ◌≡◌ {A = Option (List Json × Text)} (some (a, s)) (some (b, t))
    → s ≡ t
same_rest a b s t e = cc

fewer : (s rest y : Text) → length rest < length s → length (rest ++ y) < length (s ++ y)
fewer s rest y h = omega (arith, length-append s y, length-append rest y)

-- The text of all chunks, each decoded by itself.
abbrev pub lossy_text : List (List ℕ) → Text
lossy_text [] = []
lossy_text (chunk ∷ chunks) = from_utf8_lossy chunk ++ lossy_text chunks

module _ (from_str : Text → Option Json) where
  after_cut-then_events :
      (json_str : Text) (o : Option (List Json × Text)) (k : Text → Option (List Json × Text))
      → after_cut from_str json_str (then_events o k)
        ≡ then_events (after_cut from_str json_str o) k
  after_cut-then_events json_str o k = elim (Option-cases (from_str json_str)) [
    | inl e ↦ elim (Option-cases (split_at json_str (min (text_len json_str) 100))) [
      | inl f ↦ rw (e, after_cut) (rw f refl)
      | inr (shown, f) ↦ rw (e, after_cut) (rw f refl)
    ]
    | inr (json, e) ↦ rw (e, after_cut) (pushed json o)
  ]
    where
      pushed :
          (json : Json) (x : Option (List Json × Text))
          → push_event json (then_events x k) ≡ then_events (push_event json x) k
      pushed json none = refl
      pushed json (some (events, rest)) = push_event-prepend json events (k rest)

  abbrev pub whole : Text → Option (List Json × Text)
  whole s = extract_all from_str (suc (length s)) s

  extract_all-enough :
      (f g : ℕ) (s : Text)
      → length s < f
      → length s < g
      → extract_all from_str f s ≡ extract_all from_str g s
  unfolding extract_all
  extract_all-enough zero g s h k = absurd (omega arith)
  extract_all-enough (suc f) zero s h k = absurd (omega arith)
  extract_all-enough (suc f) (suc g) s h k = elim (Extraction-cases (extract s)) [
    | inl e ↦ rw (e, extract_all) refl
    | inr (inl e) ↦ rw (e, extract_all) refl
    | inr (inr (json_str, rest, e)) ↦
        let shorter = extract-shorter s json_str rest e in
        rw (e, extract_all)
          (ap (after_cut from_str json_str)
            (extract_all-enough f g rest (omega arith) (omega arith)))
  ]

  extract_all_step :
      (f : ℕ) (s json_str rest : Text)
      → extract s ≡ extracted json_str rest
      → extract_all from_str (suc f) s ≡ after_cut from_str json_str (extract_all from_str f rest)
  unfolding extract_all
  extract_all_step f s json_str rest e = rw (e, extract_all) refl

  extract_all-append :
      (f : ℕ) (s y : Text)
      → length s < f
      → whole (s ++ y) ≡ then_events (extract_all from_str f s) (λ rest. whole (rest ++ y))
  unfolding extract_all
  extract_all-append zero s y h = absurd (omega arith)
  extract_all-append (suc f) s y h = elim (Extraction-cases (extract s)) [
    | inl e ↦ rw (e, extract_all) (sym (prepend-nil (whole (s ++ y))))
    | inr (inl e) ↦ absurd (extract-ne-panicked s e)
    | inr (inr (json_str, rest, e)) ↦
        let shorter = extract-shorter s json_str rest e in
        extract_all_step (length (s ++ y)) (s ++ y) json_str (rest ++ y)
          (extract-append s json_str rest y e)
        ∙ ap (after_cut from_str json_str) (
            extract_all-enough (length (s ++ y)) (suc (length (rest ++ y))) (rest ++ y)
              (fewer s rest y shorter) (omega arith)
            ∙ extract_all-append f rest y (omega arith))
        ∙ after_cut-then_events json_str (extract_all from_str f rest) (λ left. whole (left ++ y))
        ∙ ap (λ o. then_events o (λ left. whole (left ++ y)))
            (sym (extract_all_step f s json_str rest e))
  ]

  -- What is left in the buffer holds no whole event.
  extract_all-waiting :
      (f : ℕ) (s rest : Text) (events : List Json)
      → length s < f
      → extract_all from_str f s ≡ some (events, rest)
      → extract rest ≡ waiting
  unfolding extract_all
  extract_all-waiting zero s rest events h k = absurd (omega arith)
  extract_all-waiting (suc f) s rest events h k = elim (Extraction-cases (extract s)) [
    | inl e ↦
        let left : some ([], s) ≡ some (events, rest) = rw (e, extract_all) at k in
        subst (λ t. extract t ≡ waiting) (same_rest [] events s rest left) e
    | inr (inl e) ↦ absurd (extract-ne-panicked s e)
    | inr (inr (json_str, after, e)) ↦
        let (more, later) =
          cut_left json_str (extract_all from_str f after)
            (sym (extract_all_step f s json_str after e) ∙ k) in
        extract_all-waiting f after rest more (omega (arith, extract-shorter s json_str after e))
          later
  ]
    where
      pushed :
          (json : Json) (o : Option (List Json × Text))
          → push_event json o ≡ some (events, rest)
          → (more : List Json) × (o ≡ some (more, rest))
      pushed json none e = absurd (cc)
      pushed json (some (more, left)) e =
          (more, ap (λ t. some (more, t)) (same_rest (json ∷ more) events left rest e))

      cut_left :
          (json_str : Text) (o : Option (List Json × Text))
          → after_cut from_str json_str o ≡ some (events, rest)
          → (more : List Json) × (o ≡ some (more, rest))
      cut_left json_str o e = elim (Option-cases (from_str json_str)) [
        | inl f ↦ elim (Option-cases (split_at json_str (min (text_len json_str) 100))) [
          | inl g ↦ absurd (cc (rw (f, g, after_cut) at e))
          | inr (shown, g) ↦ (events, rw (f, g, after_cut) at e)
        ]
        | inr (json, f) ↦ pushed json o (rw (f, after_cut) at e)
      ]

  -- The loop over the events of a buffer comes to its end: more steps than characters give the answer
  -- that any other such number of steps gives, and what is left then holds no whole event.
  pub extract_all_ends :
      (f g : ℕ) (s rest : Text) (events : List Json)
      → length s < f
      → length s < g
      → extract_all from_str f s ≡ some (events, rest)
      → (extract_all from_str g s ≡ some (events, rest)) × (extract rest ≡ waiting)
  extract_all_ends f g s rest events h k e =
      (extract_all-enough g f s k h ∙ e, extract_all-waiting f s rest events h e)

  -- The parser over the chunks of a stream, from a buffer.
  unfoldable pub feed_all : Text → List (List ℕ) → Option (List Json × Text)
  unfolding feed
  feed_all buffer [] = some ([], buffer)
  feed_all buffer (chunk ∷ chunks) =
      then_events (feed from_str buffer chunk) (λ rest. feed_all rest chunks)

  feed_all-whole :
      (chunks : List (List ℕ)) (buffer : Text)
      → extract buffer ≡ waiting
      → feed_all buffer chunks ≡ whole (buffer ++ lossy_text chunks)
  unfolding feed_all extract_all
  feed_all-whole [] buffer w =
      sym (ap (λ t. whole t) (append-nil buffer) ∙ rw (w, extract_all) refl)
  feed_all-whole (chunk ∷ chunks) buffer w =
      let longer = buffer ++ from_utf8_lossy chunk in
      fed (whole longer) refl (λ rest clean. feed_all-whole chunks rest clean)
      ∙ sym (extract_all-append (suc (length longer)) longer (lossy_text chunks) (omega arith))
      ∙ ap (λ t. whole t) (append_assoc buffer (from_utf8_lossy chunk) (lossy_text chunks))
    where
      fed :
          (o : Option (List Json × Text))
          → whole (buffer ++ from_utf8_lossy chunk) ≡ o
          → ((rest : Text)
              → extract rest ≡ waiting
              → feed_all rest chunks ≡ whole (rest ++ lossy_text chunks))
          → then_events o (λ rest. feed_all rest chunks)
            ≡ then_events o (λ rest. whole (rest ++ lossy_text chunks))
      fed none e later = refl
      fed (some (events, rest)) e later =
          let longer = buffer ++ from_utf8_lossy chunk in
          ap (prepend events) (
            later rest
              (extract_all-waiting (suc (length longer)) longer rest events (omega arith) e))

  -- Wherever the stream is cut, a new parser gives the events of the whole text, in their order, and
  -- the same text is left in the buffer; a panic there is a panic here. The text is that of the chunks,
  -- each decoded by itself.
  pub feed_all-extract_all :
      (chunks : List (List ℕ)) → feed_all [] chunks ≡ whole (lossy_text chunks)
  unfolding locate
  feed_all-extract_all chunks = feed_all-whole chunks [] (extract-located [])

-- ===== src/Streaming/Sse/Lines.antt =====
-- The stream against the lines of its whole text.
use rkgw.Base.{
  ℕ, zero, suc, ◌<◌, List, [], ◌∷◌, ◌++◌, map, Option, none, some, length, append_assoc, ◌≡◌, ◌⊎◌,
  refl, ap, sym, ◌∙◌, Option-cases, inl, inr, arith,
}
use rkgw.Base.Chars.{Text}
use rkgw.Converters.Messages.{Json}
use rkgw.Streaming.Sse.{
  Yield, event, split_line, complete, LineEvent, skipped, stop, value, after_line, read_line,
  process_lines,
}

-- What `split_line` finds, as one of the complete lines.
pub split_line-none : (s : Text) → split_line s ≡ none → complete s ≡ ([], s)
unfolding split_line complete
split_line-none [] h = refl
split_line-none (c ∷ s) h = ground (arith, split_line-none s)

pub split_line-some :
    (s line rest : Text)
    → split_line s ≡ some (line, rest)
    → (complete s ≡ (line ∷ (complete rest).0, (complete rest).1)) × (length rest < length s)
unfolding split_line complete
split_line-some [] line rest h = absurd (cc)
split_line-some (c ∷ s) line rest h = elim (Option-cases (split_line s)) [
  | inl e ↦ ground (arith, e)
  | inr ((l, r), e) ↦ ground (arith, split_line-some s l r e)
]

pub complete-append :
    (x y : Text)
    → complete (x ++ y)
      ≡ ((complete x).0 ++ (complete ((complete x).1 ++ y)).0, (complete ((complete x).1 ++ y)).1)
unfolding complete
complete-append [] y = refl
complete-append (c ∷ x) y = ground (arith, complete-append x y)

pub complete_rest : (s : Text) → complete (complete s).1 ≡ ([], (complete s).1)
unfolding complete
complete_rest [] = refl
complete_rest (c ∷ s) = ground (arith, complete_rest s)

-- All lines of a text, also one that no newline ends.
abbrev pub segments : Text → List Text
segments text = (complete text).0 ++ ((complete text).1 ∷ [])

abbrev pub then_read : List Json × Option Text → List Json × Option Text → List Json × Option Text
then_read (values, none) later = (values, none)
then_read (values, some rest) (more, left) = (values ++ more, left)

abbrev pub continue : List Json × Option Text → (Text → List Yield) → List Yield
continue (values, left) k = map event values ++ (elim left [ none ↦ [] | some rest ↦ k rest ])

pub map-append : (x y : List Json) → map event (x ++ y) ≡ map event x ++ map event y
map-append [] y = refl
map-append (v ∷ x) y = ap (λ l. event v ∷ l) (map-append x y)

pub continue-then_read :
    (x y : List Json × Option Text) (rest : Text) (k k' : Text → List Yield)
    → (x.1 ≡ none) ⊎ (x.1 ≡ some rest)
    → k' rest ≡ continue y k
    → continue x k' ≡ continue (then_read x y) k
continue-then_read (values, none) y rest k k' h e = refl
continue-then_read (values, some r) (more, left) rest k k' (inl h) e = absurd (cc)
continue-then_read (values, some r) (more, left) rest k k' (inr h) e =
    let same : r ≡ rest = cc in
    ap (λ l. map event values ++ l) (ap k' same ∙ e)
    ∙ sym (append_assoc (map event values) (map event more) _)
    ∙ ap (λ l. l ++ (elim left [ none ↦ [] | some left_over ↦ k left_over ]))
        (sym (map-append values more))

module _ (from_str : Text → Option Json) where
  -- What lines bring about in their order, up to the sentinel; `rest` is left if there is none.
  unfoldable pub read_lines : List Text → Option Text → List Json × Option Text
  unfolding read_line
  read_lines [] rest = ([], rest)
  read_lines (line ∷ more) rest = after_line (read_line from_str line) (read_lines more rest)

  pub read_lines-append :
      (a b : List Text) (r : Text) (o : Option Text)
      → read_lines (a ++ b) o ≡ then_read (read_lines a (some r)) (read_lines b o)
  unfolding read_lines
  read_lines-append [] b r o = refl
  read_lines-append (line ∷ a) b r o =
      after_then (read_line from_str line) (read_lines a (some r)) (read_lines b o)
        (read_lines-append a b r o)
    where
      after_then :
          (e : LineEvent) {x : List Json × Option Text} (y z : List Json × Option Text)
          → x ≡ then_read y z
          → after_line e x ≡ then_read (after_line e y) z
      after_then skipped y z h = h
      after_then stop y z h = refl
      after_then (value v) (values, none) z h = ground (arith, h)
      after_then (value v) (values, some left) z h = ground (arith, h)

  pub read_lines-left :
      (a : List Text) (r : Text)
      → ((read_lines a (some r)).1 ≡ none) ⊎ ((read_lines a (some r)).1 ≡ some r)
  unfolding read_lines
  read_lines-left [] r = inr refl
  read_lines-left (line ∷ a) r =
      left_after (read_line from_str line) (read_lines a (some r)) (read_lines-left a r)
    where
      left_after :
          (e : LineEvent) (x : List Json × Option Text)
          → (x.1 ≡ none) ⊎ (x.1 ≡ some r)
          → ((after_line e x).1 ≡ none) ⊎ ((after_line e x).1 ≡ some r)
      left_after skipped x h = h
      left_after stop x h = inl refl
      left_after (value v) x h = h

  pub process_lines-complete :
      (fuel : ℕ) (s : Text)
      → length s < fuel
      → process_lines from_str fuel s ≡ read_lines (complete s).0 (some (complete s).1)
  unfolding process_lines read_lines
  process_lines-complete zero s h = absurd (omega arith)
  process_lines-complete (suc fuel) s h = elim (Option-cases (split_line s)) [
    | inl e ↦ rw (e, process_lines) (rw (split_line-none s e) refl)
    | inr ((line, rest), e) ↦
        let (full, shorter) = split_line-some s line rest e in
        rw (e, process_lines)
          (rw full (
            ap (after_line (read_line from_str line))
              (process_lines-complete fuel rest (omega arith))))
  ]

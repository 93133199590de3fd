-- ===== src/ThinkingParser/Search.antt =====
-- How the parser's searches behave as more text arrives: trimming, opening tags, the closing tag,
-- and the boundary before which the buffer is sent.
use rkgw.Base.{
  ℕ, suc, ◌+◌, ◌≤◌, true, false, ◌&&◌, List, [], ◌∷◌, ◌++◌, none, some, arith, ◌≡◌, ◌⊎◌, inl, inr,
  refl, ap, subst, sym, ◌∙◌, ltb, eqb, Bool-cases, Option-cases, get_elem?, any, All,
}
use rkgw.Base.Chars.{
  Text, utf8_len, text_len, is_whitespace, trim_start, starts_with, find, shift, append_assoc,
  text_len-append, starts_with_rest, starts_with_extended, starts_with-append, find-some,
  find_later, find_miss, utf8_len-positive,
}
use rkgw.ThinkingParser.{ThinkingParser, find_tag, is_partial, could_be_tag_prefix, last_boundary}

pub starts_with_more : (s p more : Text) → starts_with s p ≡ true → starts_with (s ++ more) p ≡ true
starts_with_more s p more h =
    let (r, e) = starts_with_rest s p h in
    rw (e, append_assoc p r more) (starts_with-append p (r ++ more))

find_here : (s p : Text) → starts_with s p ≡ true → find s p ≡ some 0
unfolding find
find_here [] p h = rw h refl
find_here (c ∷ s) p h = rw h refl

find_nil : (p : Text) → starts_with [] p ≡ false → find [] p ≡ none
unfolding find
find_nil p h = rw h refl

-- An occurrence fits in the text.
find-fits : (s p : Text) {i : ℕ} → find s p ≡ some i → text_len p ≤ text_len s
find-fits s p {i} h =
    let (x, y, e, _) = find-some s p i h in
    rw e (omega (arith, text_len-append x (p ++ y), text_len-append p y))

-- More text does not change where the first occurrence is.
pub find_more : (s p more : Text) (i : ℕ) → find s p ≡ some i → find (s ++ more) p ≡ some i
find_more [] p more i h = elim (Bool-cases (starts_with [] p)) [
  | inl e ↦ find_here more p (starts_with_more [] p more e) ∙ sym (find_here [] p e) ∙ h
  | inr e ↦ absurd (cc (find_nil p e, h))
]
find_more (c ∷ s) p more i h = elim (Bool-cases (starts_with (c ∷ s) p)) [
  | inl e ↦
      find_here (c ∷ (s ++ more)) p (starts_with_more (c ∷ s) p more e)
      ∙ sym (find_here (c ∷ s) p e)
      ∙ h
  | inr e ↦ elim (Option-cases (find s p)) [
    | inl miss ↦ absurd (cc (find_later c s p e, miss, h))
    | inr (j, hit) ↦
        find_later c (s ++ more) p (starts_with_extended (c ∷ s) p more e (find-fits (c ∷ s) p h))
        ∙ ap (shift (utf8_len c)) (find_more s p more j hit ∙ sym hit)
        ∙ sym (find_later c s p e)
        ∙ h
  ]
]

-- Once a character stays, what follows it stays too.
pub trim_start_more :
    (s more : Text) {c : ℕ} {x : Text}
    → trim_start s ≡ c ∷ x
    → trim_start (s ++ more) ≡ (c ∷ x) ++ more
unfolding trim_start
trim_start_more [] more h = absurd (cc)
trim_start_more (d ∷ s) more {c} {x} h = elim (Bool-cases (is_whitespace d)) [
  | inl e ↦ rw e (trim_start_more s more (rw e at h))
  | inr e ↦ rw e (ap (λ t. t ++ more) (rw e at h))
]

-- What trimming leaves out is whitespace.
pub trim_start_split :
    (s : Text) → (w : Text) × (s ≡ w ++ trim_start s) × All (λ c. is_whitespace c ≡ true) w
unfolding trim_start
trim_start_split [] = ([], refl, tt)
trim_start_split (c ∷ s) = elim (Bool-cases (is_whitespace c)) [
  | inl e ↦
      let (w, split, white) = trim_start_split s in
      (c ∷ w, rw e (ap (λ t. c ∷ t) split), (e, white))
  | inr e ↦ ([], rw e refl, tt)
]

some-injective : {x y : Text} → some x ≡ some y → x ≡ y
some-injective e = cc

-- A tag that is found is one of the tags, and the text starts with it.
pub find_tag-some :
    (tags : List Text) (s tag : Text)
    → find_tag tags s ≡ some tag
    → ((k : ℕ) × (get_elem? tags k ≡ some tag)) × (starts_with s tag ≡ true)
unfolding find_tag
find_tag-some [] s tag h = absurd (cc)
find_tag-some (t ∷ tags) s tag h = elim (Bool-cases (starts_with s t)) [
  | inl e ↦
      let same : some t ≡ some tag = rw e at h in
      ((0, same), subst (λ u. starts_with s u ≡ true) (some-injective same) e)
  | inr e ↦
      let ((k, there), starts) = find_tag-some tags s tag (rw e at h) in ((suc k, there), starts)
]

equal_or_not : (c d : ℕ) → ((c ≡ d) × (eqb c d ≡ true) × (eqb d c ≡ true)) ⊎ (eqb c d ≡ false)
equal_or_not c d = ground arith

shorter_tail : (c d m n : ℕ) → c ≡ d → ltb (utf8_len c + m) (utf8_len d + n) ≡ ltb m n
shorter_tail c d m n e = rw e (ground arith)

-- Where the text and the tag differ, they differ for good.
mismatch_more :
    (s t more : Text)
    → starts_with s t ≡ false
    → (starts_with t s && ltb (text_len s) (text_len t)) ≡ false
    → starts_with (s ++ more) t ≡ false
unfolding starts_with
mismatch_more [] [] more h part = absurd (cc)
mismatch_more [] (d ∷ t) more h part = absurd (ground (arith, utf8_len-positive d))
mismatch_more (c ∷ s) [] more h part = absurd (cc)
mismatch_more (c ∷ s) (d ∷ t) more h part = elim (equal_or_not c d) [
  | inr other ↦ rw other refl
  | inl (e, same, back) ↦ rw same (
      mismatch_more s t more (rw same at h) (
        sym (ap (λ b. starts_with t s && b) (shorter_tail c d (text_len s) (text_len t) e))
        ∙ (rw back at part)))
]

-- A text that is no part of a tag and starts with none will not start with one later.
pub find_tag_never :
    (tags : List Text) (s more : Text)
    → find_tag tags s ≡ none
    → is_partial tags s ≡ false
    → find_tag tags (s ++ more) ≡ none
unfolding find_tag is_partial
find_tag_never [] s more h no_part = refl
find_tag_never (t ∷ tags) s more h no_part = elim (Bool-cases (starts_with s t)) [
  | inl e ↦ absurd (cc (rw e at h))
  | inr e ↦
      rw (mismatch_more s t more e (ground arith))
        (find_tag_never tags s more (rw e at h) (ground arith))
]

-- The boundary is the length of a piece from the front, at or before the split point.
pub last_boundary_cases :
    (at split_point : ℕ) (s : Text) {n : ℕ}
    → last_boundary at split_point s ≡ some n
    → (x : Text) × (y : Text) × (s ≡ x ++ y) × (n ≡ at + text_len x) × (n ≤ split_point)
unfolding last_boundary
last_boundary_cases at split_point [] h = absurd (cc)
last_boundary_cases at split_point (c ∷ s) {n} h =
    elim (Option-cases (last_boundary (at + utf8_len c) split_point s)) [
      | inl e ↦ ([], c ∷ s, refl, ground arith, ground arith)
      | inr (m, e) ↦
          let (x, y, split, at_x, le) = last_boundary_cases (at + utf8_len c) split_point s e in
          (c ∷ x, y, ap (λ t. c ∷ t) split, ground arith, ground arith)
    ]

pub find_rest : (x y p : Text) → find (x ++ y) p ≡ none → find y p ≡ none
find_rest [] y p h = h
find_rest (c ∷ x) y p h = find_rest x y p (find_miss c (x ++ y) p h).1

-- A beginning of the tag that is not shorter is the tag.
prefix_full :
    (s t : Text)
    → starts_with t s ≡ true
    → ltb (text_len s) (text_len t) ≡ false
    → starts_with s t ≡ true
unfolding starts_with
prefix_full [] [] h l = refl
prefix_full [] (d ∷ t) h l = absurd (ground (arith, utf8_len-positive d))
prefix_full (c ∷ s) [] h l = absurd (cc)
prefix_full (c ∷ s) (d ∷ t) h l = elim (equal_or_not d c) [
  | inr other ↦ absurd (cc (rw other at h))
  | inl (e, same, back) ↦ rw back (
      prefix_full s t (rw same at h) (sym (shorter_tail c d (text_len s) (text_len t) (sym e)) ∙ l))
]

no_prefix :
    (tags : List Text) (s : Text)
    → find_tag tags s ≡ none
    → is_partial tags s ≡ false
    → any (λ tag. starts_with tag s) tags ≡ false
unfolding find_tag is_partial
no_prefix [] s h part = refl
no_prefix (t ∷ tags) s h part = elim (Bool-cases (starts_with s t)) [
  | inl e ↦ absurd (cc (rw e at h))
  | inr e ↦ elim (Bool-cases (starts_with t s)) [
    | inl f ↦ absurd (cc (e, prefix_full s t f (ground arith)))
    | inr f ↦ rw f (no_prefix tags s (rw e at h) (ground arith))
  ]
]

-- Where no tag starts the text and none may come, it is no empty text, and no tag begins with it;
-- so the size of the buffer does not matter.
pub no_tag :
    (p : ThinkingParser) (t : Text) (tags : List Text) (s : Text)
    → p.open_tags ≡ t ∷ tags
    → 1 ≤ text_len t
    → find_tag p.open_tags s ≡ none
    → is_partial p.open_tags s ≡ false
    → ((c : ℕ) × (x : Text) × (s ≡ c ∷ x)) × (could_be_tag_prefix p s ≡ false)
unfolding could_be_tag_prefix is_partial starts_with
no_tag p t tags [] e l h part = absurd (ground (arith, (rw e at part), l))
no_tag p t tags (c ∷ x) e l h part = ((c, x, refl), no_prefix p.open_tags (c ∷ x) h part)

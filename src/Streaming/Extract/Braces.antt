-- ===== src/Streaming/Extract/Braces.antt =====
-- The matching brace of an object, whatever its string literals hold.
use rkgw.Base.{
  ℕ, ◌+◌, ◌-◌, ◌≤◌, true, false, [], ◌∷◌, ◌++◌, some, eqb, ◌≡◌, refl, ap, sym, ◌∙◌, append_assoc,
  arith, Bool-cases, inl, inr,
}
use rkgw.Base.Chars.{
  Text, utf8_len, text_len, text_len-append, shift, shift-shift, shift_zero, split_at-append,
}
use rkgw.Streaming.Extract.{Scan, scan_start, scan_step, scan_brace, find_matching_brace}

-- A string literal between its quotes: characters, and characters behind a backslash.
pub data Literal : Type 0 where
  closed : Literal
  ordinary : ℕ → Literal → Literal
  escaped : ℕ → Literal → Literal

abbrev pub literal_text : Literal → Text
literal_text closed = 34 ∷ []
literal_text (ordinary c rest) = c ∷ literal_text rest
literal_text (escaped c rest) = 92 ∷ c ∷ literal_text rest

abbrev pub IsLiteral : Literal → Type 0
IsLiteral closed = Unit
IsLiteral (ordinary c rest) = (eqb c 34 ≡ false) × (eqb c 92 ≡ false) × IsLiteral rest
IsLiteral (escaped c rest) = IsLiteral rest

-- What stands between two braces: string literals, what is in braces, and other characters.
pub data Inside : Type 0 where
  done : Inside
  plain : ℕ → Inside → Inside
  quoted : Literal → Inside → Inside
  braced : Inside → Inside → Inside

abbrev pub inside_text : Inside → Text
inside_text done = []
inside_text (plain c rest) = c ∷ inside_text rest
inside_text (quoted l rest) = 34 ∷ (literal_text l ++ inside_text rest)
inside_text (braced inner rest) = 123 ∷ (inside_text inner ++ (125 ∷ inside_text rest))

abbrev pub IsInside : Inside → Type 0
IsInside done = Unit
IsInside (plain c rest) =
    (eqb c 34 ≡ false) × (eqb c 123 ≡ false) × (eqb c 125 ≡ false) × IsInside rest
IsInside (quoted l rest) = IsLiteral l × IsInside rest
IsInside (braced inner rest) = IsInside inner × IsInside rest

abbrev at_depth : ℕ → Scan
at_depth n = record { brace_count = n; in_string = false; escape_next = false }

abbrev in_literal : ℕ → Scan
in_literal n = record { brace_count = n; in_string = true; escape_next = false }

-- A round that goes on.
scan_brace_next :
    (s next : Scan) (c : ℕ) (text : Text)
    → scan_step s c ≡ (false, next)
    → scan_brace s (c ∷ text) ≡ shift (utf8_len c) (scan_brace next text)
unfolding scan_brace
scan_brace_next s next c text e = rw (e, scan_brace) refl

step_plain :
    (n c : ℕ)
    → eqb c 34 ≡ false
    → eqb c 123 ≡ false
    → eqb c 125 ≡ false
    → scan_step (at_depth n) c ≡ (false, at_depth n)
unfolding scan_step
step_plain n c a b d = elim (Bool-cases (eqb c 92)) [
  | inl e ↦ rw (e, scan_step) (rw (a, b, d) refl)
  | inr e ↦ rw (e, scan_step) (rw (a, b, d) refl)
]

step_close : (n : ℕ) → 1 ≤ n → scan_step (at_depth (n + 1)) 125 ≡ (false, at_depth n)
unfolding scan_step
step_close n k =
    let back : n + 1 - 1 ≡ n = omega arith in
    let some_open : eqb n 0 ≡ false = ground arith in rw back (rw some_open refl)

step_ordinary :
    (n c : ℕ)
    → eqb c 34 ≡ false
    → eqb c 92 ≡ false
    → scan_step (in_literal n) c ≡ (false, in_literal n)
unfolding scan_step
step_ordinary n c a b = rw (b, a, scan_step) refl

abbrev behind_backslash : ℕ → Scan
behind_backslash n = record { brace_count = n; in_string = true; escape_next = true }

step_backslash : (n : ℕ) → scan_step (in_literal n) 92 ≡ (false, behind_backslash n)
unfolding scan_step
step_backslash n = refl

step_escaped : (n c : ℕ) → scan_step (behind_backslash n) c ≡ (false, in_literal n)
unfolding scan_step
step_escaped n c = refl

step_quote : (n : ℕ) → scan_step (at_depth n) 34 ≡ (false, in_literal n)
unfolding scan_step
step_quote n = refl

step_end : (n : ℕ) → scan_step (in_literal n) 34 ≡ (false, at_depth n)
unfolding scan_step
step_end n = refl

step_open : (n : ℕ) → scan_step (at_depth n) 123 ≡ (false, at_depth (n + 1))
unfolding scan_step
step_open n = refl

-- The scan comes behind a text, in a state.
abbrev Passes : Scan → Text → Scan → Type 0
Passes s x next =
    (later : Text) → scan_brace s (x ++ later) ≡ shift (text_len x) (scan_brace next later)

Passes-nil : (s : Scan) → Passes s [] s
Passes-nil s later = shift_zero (scan_brace s later)

Passes-cons :
    (s mid next : Scan) (c : ℕ) (x : Text)
    → scan_step s c ≡ (false, mid)
    → Passes mid x next
    → Passes s (c ∷ x) next
Passes-cons s mid next c x e h later =
    scan_brace_next s mid c (x ++ later) e
    ∙ ap (shift (utf8_len c)) (h later)
    ∙ shift-shift (utf8_len c) (text_len x) (scan_brace next later)

Passes-append :
    (s mid next : Scan) (x y : Text) → Passes s x mid → Passes mid y next → Passes s (x ++ y) next
Passes-append s mid next x y h k later =
    ap (scan_brace s) (append_assoc x y later)
    ∙ h (y ++ later)
    ∙ ap (shift (text_len x)) (k later)
    ∙ shift-shift (text_len x) (text_len y) (scan_brace next later)
    ∙ ap (λ n. shift n (scan_brace next later)) (sym (text_len-append x y))

scan_literal :
    (l : Literal) (n : ℕ) → IsLiteral l → Passes (in_literal n) (literal_text l) (at_depth n)
scan_literal closed n h =
    Passes-cons (in_literal n) (at_depth n) (at_depth n) 34 [] (step_end n)
      (Passes-nil (at_depth n))
scan_literal (ordinary c rest) n (a, b, h) =
    Passes-cons (in_literal n) (in_literal n) (at_depth n) c (literal_text rest)
      (step_ordinary n c a b) (scan_literal rest n h)
scan_literal (escaped c rest) n h =
    Passes-cons (in_literal n) (behind_backslash n) (at_depth n) 92 (c ∷ literal_text rest)
      (step_backslash n)
      (Passes-cons (behind_backslash n) (in_literal n) (at_depth n) c (literal_text rest)
        (step_escaped n c) (scan_literal rest n h))

scan_inside :
    (t : Inside) (n : ℕ) → IsInside t → 1 ≤ n → Passes (at_depth n) (inside_text t) (at_depth n)
scan_inside done n h k = Passes-nil (at_depth n)
scan_inside (plain c rest) n (a, b, d, h) k =
    Passes-cons (at_depth n) (at_depth n) (at_depth n) c (inside_text rest) (step_plain n c a b d)
      (scan_inside rest n h k)
scan_inside (quoted l rest) n (h, h') k =
    Passes-cons (at_depth n) (in_literal n) (at_depth n) 34 (literal_text l ++ inside_text rest)
      (step_quote n)
      (Passes-append (in_literal n) (at_depth n) (at_depth n) (literal_text l) (inside_text rest)
        (scan_literal l n h) (scan_inside rest n h' k))
scan_inside (braced inner rest) n (h, h') k =
    Passes-cons (at_depth n) (at_depth (n + 1)) (at_depth n) 123
      (inside_text inner ++ (125 ∷ inside_text rest)) (step_open n)
      (Passes-append (at_depth (n + 1)) (at_depth (n + 1)) (at_depth n) (inside_text inner)
        (125 ∷ inside_text rest) (scan_inside inner (n + 1) h (omega arith))
        (Passes-cons (at_depth (n + 1)) (at_depth n) (at_depth n) 125 (inside_text rest)
          (step_close n k) (scan_inside rest n h' k)))

found_here : (later : Text) → scan_brace (at_depth 1) (125 ∷ later) ≡ some 0
unfolding scan_brace scan_step
found_here later = refl

scan_object :
    (t : Inside) (later : Text)
    → IsInside t
    → scan_brace scan_start (123 ∷ (inside_text t ++ (125 ∷ later)))
      ≡ some (1 + text_len (inside_text t))
unfolding utf8_len
scan_object t later h =
    scan_brace_next (at_depth 0) (at_depth 1) 123 (inside_text t ++ (125 ∷ later)) (step_open 0)
    ∙ ap (shift 1) (
        scan_inside t 1 h (omega arith) (125 ∷ later)
        ∙ ap (shift (text_len (inside_text t))) (found_here later))
    ∙ ap (λ m. some (1 + m)) (omega arith)

-- Behind any text, an object's matching brace is the one that closes it, whatever stands in its string
-- literals, braces and escaped quotes too, and whatever follows it.
pub find_matching_brace-IsInside :
    (before : Text) (t : Inside) (later : Text)
    → IsInside t
    → find_matching_brace (before ++ (123 ∷ (inside_text t ++ (125 ∷ later)))) (text_len before)
      ≡ some (text_len before + (1 + text_len (inside_text t)))
unfolding find_matching_brace
find_matching_brace-IsInside before t later h =
    let object = 123 ∷ (inside_text t ++ (125 ∷ later)) in
    rw (split_at-append before object, find_matching_brace)
      (ap (shift (text_len before)) (scan_object t later h))

-- ===== src/Truncation/Diagnosis/Counted.antt =====
-- What passes the checks of the diagnosis, in terms of counts without a width.
use Prim.Native.String.{◌++◌ as join}
use rkgw.Base.{
  [], ◌∷◌, ℕ, suc, ◌+◌, ◌-◌, ◌%◌, ◌^◌, ◌≤◌, ◌<◌, Bool, true, false, ◌&&◌, not, leb, eqb, ◌≡◌, ◌≢◌,
  ◌↔◌, refl, ap, sym, ◌∙◌, subst, if◌then◌else◌, Bool-cases, inl, inr, length, is_empty, String,
  arith,
}
use rkgw.Base.Chars.{Text, text_len}
use rkgw.Truncation.Diagnosis.{
  starts_with_char, ends_with_char, balance_from, quotes_from, format_i32, verdict,
  diagnose_trimmed, trim, diagnose_json_truncation,
}

-- How often a character stands in a text.
abbrev pub occurrences : ℕ → Text → ℕ
occurrences c [] = 0
occurrences c (d ∷ s) = if eqb d c then suc (occurrences c s) else occurrences c s

-- The word of a difference.
abbrev difference : ℕ → ℕ → ℕ
difference up down = if leb down up then up - down else 2 ^ 32 - (down - up)

up_one :
    (up down : ℕ)
    → up + down < 2 ^ 31
    → (difference up down + 1) % 2 ^ 32 ≡ difference (suc up) down
up_one up down h = ground arith

down_one :
    (up down : ℕ)
    → up + down < 2 ^ 31
    → (difference up down + (2 ^ 32 - 1)) % 2 ^ 32 ≡ difference up (suc down)
down_one up down h = ground arith

balance_difference :
    (opening closing up down : ℕ) (s : Text)
    → opening ≢ closing
    → up + down + length s < 2 ^ 31
    → balance_from opening closing (difference up down) s
      ≡ difference (up + occurrences opening s) (down + occurrences closing s)
unfolding balance_from
balance_difference opening closing up down [] other h = ground arith
balance_difference opening closing up down (c ∷ s) other h = elim (Bool-cases (eqb c opening)) [
  | inl e ↦
      let f : (eqb c closing ≡ false) = ground (arith, e, other) in
      rw (e, f, up_one up down (omega (arith, h)))
        (balance_difference opening closing (suc up) down s other (omega (arith, h))
          ∙ ap (λ n. difference n (down + occurrences closing s)) (omega arith))
  | inr e ↦ elim (Bool-cases (eqb c closing)) [
    | inl f ↦
        rw (e, f, down_one up down (omega (arith, h)))
          (balance_difference opening closing up (suc down) s other (omega (arith, h))
            ∙ ap (difference (up + occurrences opening s)) (omega arith))
    | inr f ↦ rw (e, f) (balance_difference opening closing up down s other (omega (arith, h)))
  ]
]

difference_zero :
    (up down : ℕ) → up + down < 2 ^ 31 → (eqb (difference up down) 0 ≡ true) ↔ (up ≡ down)
difference_zero up down h = ground arith

occurrences-bounds : (a b : ℕ) (s : Text) → a ≢ b → occurrences a s + occurrences b s ≤ length s
occurrences-bounds a b [] other = omega arith
occurrences-bounds a b (c ∷ s) other = ground (arith, occurrences-bounds a b s other, other)

balance_from-zero :
    (opening closing : ℕ) (s : Text)
    → opening ≢ closing
    → length s < 2 ^ 31
    → (eqb (balance_from opening closing 0 s) 0 ≡ true)
      ↔ (occurrences opening s ≡ occurrences closing s)
balance_from-zero opening closing s other h =
    subst (λ n. (eqb n 0 ≡ true) ↔ (occurrences opening s ≡ occurrences closing s))
      (sym (balance_difference opening closing 0 0 s other (omega (arith, h)) ∙ rw_zero))
      (difference_zero (occurrences opening s) (occurrences closing s)
        (omega (arith, h, occurrences-bounds opening closing s other)))
  where
    rw_zero :
        difference (0 + occurrences opening s) (0 + occurrences closing s)
        ≡ difference (occurrences opening s) (occurrences closing s)
    rw_zero = ground arith

-- Reads a text from outside or inside a string literal, and says whether it ends outside.
unfoldable pub ends_outside : Bool → Text → Bool
ends_outside b [] = b
ends_outside b (c ∷ []) = if eqb c 34 then not b else b
ends_outside b (c ∷ (d ∷ s)) =
    let escaped = ends_outside b s in
    let read = ends_outside (if eqb c 34 then not b else b) (d ∷ s) in
    if eqb c 92 then escaped else read

next_parity :
    (q : Bool) (n : ℕ)
    → (if q then not (eqb (n % 2) 0) else eqb (n % 2) 0)
      ≡ eqb ((if q then (n + 1) % 2 ^ 32 else n) % 2) 0
next_parity true n = ground arith
next_parity false n = refl

quotes_from-parity :
    (n : ℕ) (s : Text) → eqb (quotes_from n s % 2) 0 ≡ ends_outside (eqb (n % 2) 0) s
unfolding quotes_from ends_outside
quotes_from-parity n [] = refl
quotes_from-parity n (c ∷ []) = sym (next_parity (eqb c 34) n)
quotes_from-parity n (c ∷ (d ∷ s)) = elim (Bool-cases (eqb c 92)) [
  | inl e ↦ rw e (quotes_from-parity n s)
  | inr e ↦ rw e (
      quotes_from-parity (if eqb c 34 then (n + 1) % 2 ^ 32 else n) (d ∷ s)
      ∙ ap (λ b. ends_outside b (d ∷ s)) (sym (next_parity (eqb c 34) n)))
]

-- Braces and brackets are closed at the end and as often as they are opened, and no string is open.
abbrev pub IsBalanced : Text → Type 0
IsBalanced t =
    (starts_with_char 123 t ≡ true → ends_with_char 125 t ≡ true)
    × (starts_with_char 91 t ≡ true → ends_with_char 93 t ≡ true)
    × (occurrences 123 t ≡ occurrences 125 t)
    × (occurrences 91 t ≡ occurrences 93 t)
    × (ends_outside true t ≡ true)

chain :
    (size : ℕ) (r1 r2 r3 r4 r5 r6 : String) (a b c d e f g : Bool)
    → ((if a && not b
          then verdict true r1 size
          else if c && not d
          then verdict true r2 size
          else if not e
          then verdict true r3 size
          else if not f
          then verdict true r4 size
          else if not g
          then verdict true r5 size
          else verdict false r6 size).is_truncated
        ≡ false)
      ↔ ((a ≡ true → b ≡ true) × (c ≡ true → d ≡ true) × (e ≡ true) × (f ≡ true) × (g ≡ true))
chain size r1 r2 r3 r4 r5 r6 a b c d e f g = ground arith

diagnose_trimmed-IsBalanced :
    (t : Text) (size_bytes : ℕ)
    → length t < 2 ^ 31
    → ((diagnose_trimmed t size_bytes).is_truncated ≡ false) ↔ IsBalanced t
unfolding diagnose_trimmed
diagnose_trimmed-IsBalanced t size_bytes h =
    let braces = balance_from-zero 123 125 t (omega arith) h in
    let brackets = balance_from-zero 91 93 t (omega arith) h in
    let quotes = quotes_from-parity 0 t in
    let passed =
      chain size_bytes "starts with '{' but does not end with '}'"
        "starts with '[' but does not end with ']'"
        (join "unbalanced braces (count: " (join (format_i32 (balance_from 123 125 0 t)) ")"))
        (join "unbalanced brackets (count: " (join (format_i32 (balance_from 91 93 0 t)) ")"))
        (join "unclosed string literal (quote count: " (join (format_i32 (quotes_from 0 t)) ")"))
        "all checks passed" (starts_with_char 123 t) (ends_with_char 125 t) (starts_with_char 91 t)
        (ends_with_char 93 t) (eqb (balance_from 123 125 0 t) 0) (eqb (balance_from 91 93 0 t) 0)
        (eqb (quotes_from 0 t % 2) 0) in
    (
      λ e.
          let (object, array, x, y, z) = passed.0 e in
          (object, array, braces.0 x, brackets.0 y, sym quotes ∙ z),
      λ (object, array, x, y, z). passed.1 (object, array, braces.1 x, brackets.1 y, quotes ∙ z),
    )

-- A text with less than 2^31 characters between its outer blanks is taken for complete just if these
-- are balanced: braces and brackets are closed at the end and as often as they are opened, wherever
-- they stand, and no string literal is open.
pub diagnose_json_truncation-IsBalanced :
    (json_str : Text)
    → length (trim json_str) < 2 ^ 31
    → ((diagnose_json_truncation json_str).is_truncated ≡ false) ↔ IsBalanced (trim json_str)
unfolding diagnose_json_truncation ends_outside
diagnose_json_truncation-IsBalanced json_str h = of_trimmed (trim json_str) h
  where
    of_trimmed :
        (t : Text)
        → length t < 2 ^ 31
        → ((if is_empty t
              then verdict false "empty string" (text_len json_str)
              else diagnose_trimmed t (text_len json_str)).is_truncated
            ≡ false)
          ↔ IsBalanced t
    of_trimmed [] h = (λ e. ((λ o. absurd (cc)), (λ o. absurd (cc)), refl, refl, refl), λ b. refl)
    of_trimmed (c ∷ t) h = diagnose_trimmed-IsBalanced (c ∷ t) (text_len json_str) h

-- ===== src/Base/Chars.antt =====
-- Texts as lists of code points, with positions counted in bytes of UTF-8 as the standard
-- library's `str` methods count them. A slice at a position inside a character is a panic.
use Prim.Native.Nat.{ℕ, zero, suc, ◌+◌, ◌-◌, ◌≤◌}
use Prim.Native.Char.{code}
use Prim.Native.String.{String, [] as empty, ◌∷◌ as char_cons}
use mathlib.Core.Path.{◌≡◌, refl, ap, ◌∙◌, subst}
use mathlib.Core.Bool.{Bool, true, false, ◌&&◌, ◌||◌}
use mathlib.Core.Option.{Option, none, some}
use mathlib.Core.List.{List, [], ◌∷◌, ◌++◌}
use mathlib.Core.Logic.{inl, inr}
use native.Mathlib.Omega.{arith}
use rkgw.Base.Tests.{ltb, leb, eqb, eqb_iff, if◌then◌else◌, Bool-cases, Option-cases}
pub use rkgw.Base.Lists.{append-nil, append_assoc}

abbrev pub Text : Type 0
Text = List ℕ

abbrev pub chars : String → Text
chars empty = []
chars (char_cons c s) = code c ∷ chars s

-- `char::len_utf8`
unfoldable pub utf8_len : ℕ → ℕ
utf8_len c = if ltb c 128 then 1 else if ltb c 2048 then 2 else if ltb c 65536 then 3 else 4

-- `str::len`
abbrev pub text_len : Text → ℕ
text_len [] = 0
text_len (c ∷ s) = utf8_len c + text_len s

-- `char::is_whitespace`: the code points with the property White_Space.
unfoldable pub is_whitespace : ℕ → Bool
is_whitespace c =
    (leb 9 c && leb c 13)
    || eqb c 32
    || eqb c 133
    || eqb c 160
    || eqb c 5760
    || (leb 8192 c && leb c 8202)
    || eqb c 8232
    || eqb c 8233
    || eqb c 8239
    || eqb c 8287
    || eqb c 12288

unfoldable pub trim_start : Text → Text
trim_start [] = []
trim_start (c ∷ s) = let rest = trim_start s in if is_whitespace c then rest else c ∷ s

unfoldable pub starts_with : Text → Text → Bool
starts_with s [] = true
starts_with [] (d ∷ p) = false
starts_with (c ∷ s) (d ∷ p) = eqb c d && starts_with s p

abbrev pub shift : ℕ → Option ℕ → Option ℕ
shift n none = none
shift n (some i) = some (n + i)

-- `str::find`: the byte position of the first occurrence.
unfoldable pub find : Text → Text → Option ℕ
find [] p = if starts_with [] p then some 0 else none
find (c ∷ s) p =
    let later = shift (utf8_len c) (find s p) in if starts_with (c ∷ s) p then some 0 else later

abbrev push_char : ℕ → Option (Text × Text) → Option (Text × Text)
push_char c none = none
push_char c (some (s, t)) = some (c ∷ s, t)

-- The two slices `&s[..n]` and `&s[n..]`.
unfoldable pub split_at : Text → ℕ → Option (Text × Text)
split_at s zero = some ([], s)
split_at [] (suc n) = none
split_at (c ∷ s) (suc n) =
    let rest = split_at s (suc n - utf8_len c) in
    if leb (utf8_len c) (suc n) then push_char c rest else none

pub utf8_len-positive : (c : ℕ) → 1 ≤ utf8_len c
unfolding utf8_len
utf8_len-positive c = ground arith

pub text_len-append : (x y : Text) → text_len (x ++ y) ≡ text_len x + text_len y
text_len-append [] y = omega arith
text_len-append (c ∷ x) y = omega (arith, text_len-append x y)

split_at_cons :
    (c : ℕ) (s : Text) (m : ℕ)
    → utf8_len c ≤ m
    → split_at (c ∷ s) m ≡ push_char c (split_at s (m - utf8_len c))
unfolding split_at
split_at_cons c s zero h = absurd (omega (arith, utf8_len-positive c))
split_at_cons c s (suc n) h = rw (leb-true (utf8_len c) (suc n) h) refl
  where
    leb-true : (m n : ℕ) → m ≤ n → leb m n ≡ true
    leb-true m n h = ground arith

split_at_suc :
    (c : ℕ) (s : Text) (n : ℕ) → split_at (c ∷ s) (utf8_len c + n) ≡ push_char c (split_at s n)
split_at_suc c s n =
    split_at_cons c s (utf8_len c + n) (omega arith)
    ∙ ap (λ m. push_char c (split_at s m)) (omega arith)

-- A slice at the end of a prefix takes that prefix.
pub split_at-append : (x y : Text) → split_at (x ++ y) (text_len x) ≡ some (x, y)
unfolding split_at
split_at-append [] y = refl
split_at-append (c ∷ x) y =
    split_at_suc c (x ++ y) (text_len x) ∙ ap (push_char c) (split_at-append x y)

pub starts_with-append : (p r : Text) → starts_with (p ++ r) p ≡ true
unfolding starts_with
starts_with-append [] r = refl
starts_with-append (c ∷ p) r = ground (arith, starts_with-append p r)

pub starts_with_rest : (s p : Text) → starts_with s p ≡ true → (r : Text) × (s ≡ p ++ r)
unfolding starts_with
starts_with_rest s [] h = (s, refl)
starts_with_rest [] (d ∷ p) h = absurd (cc)
starts_with_rest (c ∷ s) (d ∷ p) h =
    let (r, e) = starts_with_rest s p (ground arith) in (r, ground (arith, e))

shorter :
    (c d : ℕ) (p s : Text)
    → c ≡ d
    → utf8_len d + text_len p ≤ utf8_len c + text_len s
    → text_len p ≤ text_len s
shorter c d p s e l = omega (arith, ap utf8_len e)

-- More text does not complete an occurrence that would fit in the text that is there.
pub starts_with_extended :
    (s p more : Text)
    → starts_with s p ≡ false
    → text_len p ≤ text_len s
    → starts_with (s ++ more) p ≡ false
unfolding starts_with
starts_with_extended s [] more h l = h
starts_with_extended [] (d ∷ p) more h l = absurd (omega (arith, utf8_len-positive d))
starts_with_extended (c ∷ s) (d ∷ p) more h l = elim (Bool-cases (eqb c d)) [
  | inl same ↦
      rw same
        (starts_with_extended s p more (rw same at h) (shorter c d p s ((eqb_iff c d).0 same) l))
  | inr other ↦ rw other refl
]

pub shift_zero : (o : Option ℕ) → o ≡ shift 0 o
shift_zero none = refl
shift_zero (some i) = ap some (omega arith)

pub shift-shift : (m n : ℕ) (o : Option ℕ) → shift m (shift n o) ≡ shift (m + n) o
shift-shift m n none = refl
shift-shift m n (some i) = ap some (omega arith)

-- Where `find` misses, the text does not start with the pattern, and its rest has no occurrence.
pub find_miss :
    (c : ℕ) (s p : Text)
    → find (c ∷ s) p ≡ none
    → (starts_with (c ∷ s) p ≡ false) × (find s p ≡ none)
unfolding find
find_miss c s p h = elim (Bool-cases (starts_with (c ∷ s) p)) [
  | inl e ↦ absurd (cc (rw e at h))
  | inr e ↦ (e, unshift (find s p) (rw e at h))
]
  where
    unshift : (o : Option ℕ) → shift (utf8_len c) o ≡ none → o ≡ none
    unshift none h = refl
    unshift (some i) h = absurd (cc)

some-injective : {i j : ℕ} → some i ≡ some j → i ≡ j
some-injective e = cc

-- The position behind what stands before the occurrence.
pub find-some :
    (s p : Text) (i : ℕ)
    → find s p ≡ some i
    → (x : Text) × (y : Text) × (s ≡ x ++ (p ++ y)) × (i ≡ text_len x)
unfolding find
find-some [] p i h = elim (Bool-cases (starts_with [] p)) [
  | inl e ↦ let (r, split) = starts_with_rest [] p e in ([], r, split, (cc (rw e at h)))
  | inr e ↦ absurd (cc (rw e at h))
]
find-some (c ∷ s) p i h = elim (Bool-cases (starts_with (c ∷ s) p)) [
  | inl e ↦ let (r, split) = starts_with_rest (c ∷ s) p e in ([], r, split, (cc (rw e at h)))
  | inr e ↦ elim (Option-cases (find s p)) [
    | inl miss ↦ absurd (cc (rw (e, miss) at h))
    | inr (j, hit) ↦
        let (x, y, split, at_x) = find-some s p j hit in
        (c ∷ x, y, ap (λ t. c ∷ t) split, later c x j at_x (rw (e, hit) at h))
  ]
]
  where
    later :
        (c : ℕ) (x : Text) (j : ℕ) {i : ℕ}
        → j ≡ text_len x
        → shift (utf8_len c) (some j) ≡ some i
        → i ≡ utf8_len c + text_len x
    later c x j e h = omega (arith, some-injective h)

pub find_later :
    (c : ℕ) (s p : Text)
    → starts_with (c ∷ s) p ≡ false
    → find (c ∷ s) p ≡ shift (utf8_len c) (find s p)
unfolding find
find_later c s p h = rw h refl

-- Where a text has no occurrence, and its last part is as long as the pattern, what follows is
-- searched from that part on.
pub find_past :
    (s k p more : Text)
    → find (s ++ k) p ≡ none
    → text_len p ≤ text_len k
    → find (s ++ (k ++ more)) p ≡ shift (text_len s) (find (k ++ more) p)
find_past [] k p more h l = shift_zero (find (k ++ more) p)
find_past (c ∷ s) k p more h l =
    let (here, rest) = find_miss c (s ++ k) p h in
    find_later c (s ++ (k ++ more)) p (
      subst (λ t. starts_with (c ∷ t) p ≡ false) (append_assoc s k more)
        (starts_with_extended (c ∷ (s ++ k)) p more here (omega (arith, text_len-append s k))))
    ∙ ap (shift (utf8_len c)) (find_past s k p more rest l)
    ∙ shift-shift (utf8_len c) (text_len s) (find (k ++ more) p)

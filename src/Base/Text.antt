-- ===== src/Base/Text.antt =====
-- Searches in a text, character by character, as the standard library's `str` methods do them.
use Prim.Native.Nat.{ℕ}
use Prim.Native.Char.{Char, code}
use Prim.Native.String.{String, [], ◌∷◌}
use mathlib.Core.Bool.{Bool, true, false, ◌&&◌, ◌||◌}
use mathlib.Core.Option.{Option, none, some}
use rkgw.Base.Tests.{eqb, if◌then◌else◌}

-- `s.starts_with(p)`
unfoldable pub starts_with : String → String → Bool
starts_with s [] = true
starts_with [] (d ∷ p) = false
starts_with (c ∷ s) (d ∷ p) = eqb (code c) (code d) && starts_with s p

abbrev push_front : Char → Option (String × String) → Option (String × String)
push_front c none = none
push_front c (some (s, t)) = some (c ∷ s, t)

-- `s.split_once(c)`: what stands before and behind the first `c`.
unfoldable pub split_once : String → ℕ → Option (String × String)
split_once [] c = none
split_once (d ∷ s) c =
    let later = push_front d (split_once s c) in if eqb (code d) c then some ([], s) else later

abbrev pub is_empty_str : String → Bool
is_empty_str [] = true
is_empty_str (c ∷ s) = false

-- `s.strip_prefix(p)`
unfoldable pub strip_prefix : String → String → Option String
strip_prefix s [] = some s
strip_prefix [] (d ∷ p) = none
strip_prefix (c ∷ s) (d ∷ p) = if eqb (code c) (code d) then strip_prefix s p else none

unfoldable pub has_char : String → ℕ → Bool
has_char [] c = false
has_char (d ∷ s) c = eqb (code d) c || has_char s c

-- `s.split(c).next_back()`: what stands behind the last `c`, or everything.
unfoldable pub last_segment : String → ℕ → String
unfolding has_char
last_segment [] c = []
last_segment (d ∷ s) c =
    let rest = last_segment s c in
    if has_char s c then rest else if eqb (code d) c then s else d ∷ s

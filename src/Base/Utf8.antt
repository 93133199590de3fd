-- ===== src/Base/Utf8.antt =====
-- UTF-8 as the standard library reads it: `str::from_utf8` and `String::from_utf8_lossy`.
use Prim.Native.Nat.{ℕ, ◌+◌, ◌-◌, ◌*◌}
use mathlib.Core.Bool.{Bool, ◌&&◌}
use mathlib.Core.Option.{Option, none, some}
use mathlib.Core.List.{List, [], ◌∷◌}
use rkgw.Base.Tests.{ltb, leb, eqb, if◌then◌else◌}
use rkgw.Base.Chars.{Text}

-- What a byte opens: how many bytes follow, the bits so far, and the range of the next byte.
pub record Sequence : Type 0 where
  pub needed : ℕ
  pub bits : ℕ
  pub low : ℕ
  pub high : ℕ

abbrev pub between : ℕ → ℕ → ℕ → Bool
between low high b = leb low b && leb b high

abbrev opening : ℕ → ℕ → ℕ → ℕ → Option Sequence
opening needed bits low high =
    some (record { needed = needed; bits = bits; low = low; high = high })

unfoldable pub lead : ℕ → Option Sequence
lead b =
    if ltb b 128
    then opening 0 b 128 191
    else if between 194 223 b
    then opening 1 (b - 192) 128 191
    else if eqb b 224
    then opening 2 (b - 224) 160 191
    else if eqb b 237
    then opening 2 (b - 224) 128 159
    else if between 225 239 b
    then opening 2 (b - 224) 128 191
    else if eqb b 240
    then opening 3 (b - 240) 144 191
    else if between 241 243 b
    then opening 3 (b - 240) 128 191
    else if eqb b 244
    then opening 3 (b - 240) 128 143
    else none

-- A continuation byte inside a sequence.
abbrev pub extend : Sequence → ℕ → Option Sequence
extend s b =
    if between s.low s.high b
    then opening (s.needed - 1) (s.bits * 64 + (b - 128)) 128 191
    else none

abbrev pub start : Sequence
start = record { needed = 0; bits = 0; low = 128; high = 191 }

-- The sequence behind a byte, from inside a sequence or between two.
unfoldable pub next_sequence : Sequence → ℕ → Option Sequence
unfolding lead
next_sequence s b = if eqb s.needed 0 then lead b else extend s b

abbrev push_scalar : Sequence → Option Text → Option Text
push_scalar s none = none
push_scalar s (some t) = if eqb s.needed 0 then some (s.bits ∷ t) else some t

unfoldable pub decode : Sequence → List ℕ → Option Text
unfolding next_sequence
decode s [] = if eqb s.needed 0 then some [] else none
decode s (b ∷ bytes) = elim (next_sequence s b) [
  | none ↦ none
  | some next ↦ push_scalar next (decode next bytes)
]

-- `str::from_utf8`
unfoldable pub from_utf8 : List ℕ → Option Text
unfolding decode
from_utf8 bytes = decode start bytes

-- `String::from_utf8_lossy`: U+FFFD stands for each longest piece that begins a sequence, and for
-- each other byte that fits nowhere.
abbrev settle : Option Sequence → (Sequence → Text) → Text
settle none k = 65533 ∷ k start
settle (some s) k = if eqb s.needed 0 then s.bits ∷ k s else k s

unfoldable pub decode_lossy : Sequence → List ℕ → Text
unfolding lead
decode_lossy s [] = if eqb s.needed 0 then [] else 65533 ∷ []
decode_lossy s (b ∷ bytes) =
    if eqb s.needed 0
    then settle (lead b) (λ next. decode_lossy next bytes)
    else elim (extend s b) [
      | none ↦ 65533 ∷ settle (lead b) (λ next. decode_lossy next bytes)
      | some next ↦ settle (some next) (λ n. decode_lossy n bytes)
    ]

unfoldable pub from_utf8_lossy : List ℕ → Text
unfolding decode_lossy
from_utf8_lossy bytes = decode_lossy start bytes

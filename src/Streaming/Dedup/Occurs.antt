-- ===== src/Streaming/Dedup/Occurs.antt =====
-- The calls that stand in a list, and in the values of a map.
use rkgw.Base.{String, List, [], ◌∷◌, ◌++◌, some, ◌==◌, ◌≡◌, ◌⊎◌, inl, inr, string_eq, Bool-cases}
use rkgw.Base.Maps.{Map, lookup, remove}
use rkgw.Streaming.Accumulator.{ToolUse}
use rkgw.Streaming.Dedup.{values}

abbrev pub Occurs : ToolUse → List ToolUse → Type 0
Occurs call [] = ⊥
Occurs call (other ∷ calls) = (call ≡ other) ⊎ Occurs call calls

pub Occurs-append_left :
    (call : ToolUse) (x y : List ToolUse) → Occurs call x → Occurs call (x ++ y)
Occurs-append_left call [] y h = absurd h
Occurs-append_left call (other ∷ x) y (inl e) = inl e
Occurs-append_left call (other ∷ x) y (inr h) = inr (Occurs-append_left call x y h)

pub Occurs-append_right :
    (call : ToolUse) (x y : List ToolUse) → Occurs call y → Occurs call (x ++ y)
Occurs-append_right call [] y h = h
Occurs-append_right call (other ∷ x) y h = inr (Occurs-append_right call x y h)

pub Occurs-append_cases :
    (call : ToolUse) (x y : List ToolUse) → Occurs call (x ++ y) → Occurs call x ⊎ Occurs call y
Occurs-append_cases call [] y h = inr h
Occurs-append_cases call (other ∷ x) y (inl e) = inl (inl e)
Occurs-append_cases call (other ∷ x) y (inr h) = elim (Occurs-append_cases call x y h) [
  | inl l ↦ inl (inr l)
  | inr r ↦ inr r
]

pub values-lookup :
    (id : String) (call : ToolUse) (m : Map String ToolUse)
    → lookup id m ≡ some call
    → Occurs call (values m)
unfolding lookup
values-lookup id call [] h = absurd (cc)
values-lookup id call ((j, v) ∷ m) h = elim (Bool-cases (j == id)) [
  | inl e ↦ inl (cc (rw e at h))
  | inr e ↦ inr (values-lookup id call m (rw e at h))
]

pub values-remove :
    (id : String) (call : ToolUse) (m : Map String ToolUse)
    → Occurs call (values (remove id m))
    → Occurs call (values m)
unfolding remove
values-remove id call [] h = h
values-remove id call ((j, v) ∷ m) h = elim (Bool-cases (j == id)) [
  | inl e ↦ inr (values-remove id call m (rw e at h))
  | inr e ↦ elim (rw e at h) as (λ o. (call ≡ v) ⊎ Occurs call (values m)) [
    | inl same ↦ inl same
    | inr later ↦ inr (values-remove id call m later)
  ]
]

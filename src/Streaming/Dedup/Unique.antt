-- ===== src/Streaming/Dedup/Unique.antt =====
-- What the deduplication answers.
use Prim.Native.String.{◌++◌ as join}
use rkgw.Base.{
  ◌≤◌, String, true, false, List, [], ◌∷◌, ◌++◌, some, ◌==◌, ◌≡◌, ◌≢◌, ◌⊎◌, inl, inr, refl, ap, sym,
  ◌∙◌, All, All-imp, string_eq, Bool-cases, beq_refl, arith,
}
use rkgw.Base.Maps.{lookup}
use rkgw.Base.Sets.{contains}
use rkgw.Base.Text.{is_empty_str}
use rkgw.Converters.Messages.{Json}
use rkgw.Streaming.Accumulator.{ToolUse}
use rkgw.Streaming.Dedup.{nothing, values, collect, call_key, unique_calls, deduplicate_tool_calls}
use rkgw.Streaming.Dedup.Occurs.{Occurs, Occurs-append_left, Occurs-append_right, values-lookup}
use rkgw.Streaming.Dedup.Kept.{weight, IsHeld, collect-AllHeld, collect-Occurs}

empty_map : (id : String) (call : ToolUse) → lookup id (nothing.by_id) ≡ some call → ⊥
unfolding lookup
empty_map id call h = cc

module _ (to_string : Json → String) where
  -- A call as one text: its name, a dash and its arguments as they are printed.
  abbrev pub printed : ToolUse → String
  printed call = join call.name (join "-" (to_string call.input))

  -- No two calls are printed alike.
  abbrev pub AreUnique : List ToolUse → Type 0
  AreUnique [] = Unit
  AreUnique (call ∷ calls) = All (λ other. printed other ≢ printed call) calls × AreUnique calls

  seen_more :
      (seen : List String) (first key : String)
      → contains seen key ≡ true
      → contains (first ∷ seen) key ≡ true
  unfolding contains
  seen_more seen first key h = ground (arith, h)

  seen_first : (seen : List String) (key : String) → contains (key ∷ seen) key ≡ true
  unfolding contains
  seen_first seen key = rw (beq_refl key) refl

  unseen :
      (calls : List ToolUse) (seen : List String) (key : String)
      → contains seen key ≡ true
      → All (λ other. call_key to_string other ≢ key) (unique_calls to_string seen calls)
  unfolding unique_calls call_key
  unseen [] seen key h = tt
  unseen (call ∷ calls) seen key h = elim (Bool-cases (contains seen (call_key to_string call))) [
    | inl known ↦ rw known (unseen calls seen key h)
    | inr new ↦ rw new (
      λ e. cc (sym new ∙ ap (contains seen) e ∙ h),
      unseen calls (call_key to_string call ∷ seen) key
          (seen_more seen (call_key to_string call) key h),
    )
  ]

  unique_calls-AreUnique :
      (calls : List ToolUse) (seen : List String) → AreUnique (unique_calls to_string seen calls)
  unfolding unique_calls call_key
  unique_calls-AreUnique [] seen = tt
  unique_calls-AreUnique (call ∷ calls) seen =
      let key = call_key to_string call in
      elim (Bool-cases (contains seen key)) [
        | inl known ↦ rw known (unique_calls-AreUnique calls seen)
        | inr new ↦ rw new (
          unseen calls (key ∷ seen) key (seen_first seen key),
          unique_calls-AreUnique calls (key ∷ seen),
        )
      ]

  unique_calls-Occurs :
      (calls : List ToolUse) (seen : List String)
      → All (λ call. Occurs call calls) (unique_calls to_string seen calls)
  unfolding unique_calls call_key
  unique_calls-Occurs [] seen = tt
  unique_calls-Occurs (call ∷ calls) seen =
      let key = call_key to_string call in
      elim (Bool-cases (contains seen key)) [
        | inl known ↦ rw known (later seen (unique_calls-Occurs calls seen))
        | inr new ↦ rw new (inl refl, later (key ∷ seen) (unique_calls-Occurs calls (key ∷ seen)))
      ]
    where
      later :
          (keys : List String)
          → All (λ other. Occurs other calls) (unique_calls to_string keys calls)
          → All (λ other. Occurs other (call ∷ calls)) (unique_calls to_string keys calls)
      later keys h = All-imp (unique_calls to_string keys calls) (λ x o. inr o) h

  -- A call that is printed like this stands in the list.
  abbrev pub HasKey : String → List ToolUse → Type 0
  HasKey key calls = (call : ToolUse) × Occurs call calls × (printed call ≡ key)

  HasKey-cons :
      (key : String) (first : ToolUse) (calls : List ToolUse)
      → HasKey key calls
      → HasKey key (first ∷ calls)
  HasKey-cons key first calls (call, o, e) = (call, inr o, e)

  seen_cases :
      (seen : List String) (first key : String)
      → contains (first ∷ seen) key ≡ true
      → (first ≡ key) ⊎ (contains seen key ≡ true)
  unfolding contains
  seen_cases seen first key h = elim (Bool-cases (first == key)) [
    | inl e ↦ inl ((string_eq.beq_iff first key).0 e)
    | inr e ↦ inr (rw e at h)
  ]

  unique_calls-HasKey :
      (calls : List ToolUse) (seen : List String) (call : ToolUse)
      → Occurs call calls
      → let key = call_key to_string call in
        (contains seen key ≡ true) ⊎ HasKey key (unique_calls to_string seen calls)
  unfolding unique_calls call_key
  unique_calls-HasKey [] seen call o = absurd o
  unique_calls-HasKey (first ∷ calls) seen call (inl e) =
      elim (Bool-cases (contains seen (call_key to_string first))) [
        | inl known ↦ inl (ap (λ t. contains seen (call_key to_string t)) e ∙ known)
        | inr new ↦ rw new (inr (first, inl refl, ap (call_key to_string) (sym e)))
      ]
  unique_calls-HasKey (first ∷ calls) seen call (inr o) =
      let key = call_key to_string call in
      elim (Bool-cases (contains seen (call_key to_string first))) [
        | inl known ↦ rw known (unique_calls-HasKey calls seen call o)
        | inr new ↦
            rw new (elim (unique_calls-HasKey calls (call_key to_string first ∷ seen) call o) [
              | inl found ↦ elim (seen_cases seen (call_key to_string first) key found) [
                | inl same ↦ inr (first, inl refl, same)
                | inr before ↦ inl before
              ]
              | inr kept ↦ inr (
                  HasKey-cons key first
                    (unique_calls to_string (call_key to_string first ∷ seen) calls) kept)
            ])
      ]

  -- A call stands for itself, or one with its id does that has no less of arguments.
  abbrev pub IsRepresented : List ToolUse → List ToolUse → ToolUse → Type 0
  IsRepresented calls kept call =
      HasKey (printed call) kept
      ⊎ ((other : ToolUse) × Occurs other calls
          × (other.tool_use_id ≡ call.tool_use_id)
          × (is_empty_str call.tool_use_id ≡ false)
          × (weight to_string call ≤ weight to_string other)
          × HasKey (printed other) kept)

  kept_call :
      (calls : List ToolUse) (call : ToolUse)
      → Occurs call calls
      → HasKey (call_key to_string call) (unique_calls to_string [] calls)
  unfolding contains call_key
  kept_call calls call o = elim (unique_calls-HasKey calls [] call o) [
    | inl h ↦ absurd (cc)
    | inr h ↦ h
  ]

  -- Deduplication answers calls that were there, no two with the same text of name, dash and printed
  -- arguments; and every call is represented: one with its text is answered, or, where it has an id, one
  -- with the text of a call with that id that has no less of arguments.
  pub deduplicate_tool_calls_lem :
      (calls : List ToolUse)
      → let kept = deduplicate_tool_calls to_string calls in
        AreUnique kept × All (λ call. Occurs call calls) kept × All (IsRepresented calls kept) calls
  unfolding deduplicate_tool_calls call_key
  deduplicate_tool_calls_lem calls =
      let c = collect to_string nothing calls in
      let all = values c.by_id ++ c.without_id in
      (
        unique_calls-AreUnique all [],
        All-imp (unique_calls to_string [] all) (λ call o. there call o)
            (unique_calls-Occurs all []),
        All-imp calls (λ call h. represented call h)
            (collect-AllHeld to_string calls nothing
              (λ id call found. absurd (empty_map id call found))),
      )
    where
      there :
          (call : ToolUse)
          → let c = collect to_string nothing calls in
            Occurs call (values c.by_id ++ c.without_id) → Occurs call calls
      there call o = elim (collect-Occurs to_string calls nothing call o) [
        | inl h ↦ h
        | inr never ↦ absurd never
      ]

      represented :
          (call : ToolUse)
          → let c = collect to_string nothing calls in
            IsHeld to_string c call
            → IsRepresented calls (unique_calls to_string [] (values c.by_id ++ c.without_id)) call
      represented call (inl (e, o)) =
          let c = collect to_string nothing calls in
          inl (
            kept_call (values c.by_id ++ c.without_id) call
              (Occurs-append_right call (values c.by_id) c.without_id o))
      represented call (inr (kept, filled, found, same, less)) =
          let c = collect to_string nothing calls in
          let o =
            Occurs-append_left kept (values c.by_id) c.without_id
              (values-lookup call.tool_use_id kept c.by_id found) in
          inr (
            kept,
            there kept o,
            same,
            filled,
            less,
            kept_call (values c.by_id ++ c.without_id) kept o,
          )

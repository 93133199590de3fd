-- ===== src/Streaming/Dedup/Kept.antt =====
-- What the deduplication keeps of the calls, whatever the order of the map.
use rkgw.Base.{
  ℕ, suc, ◌≤◌, String, true, false, List, [], ◌∷◌, ◌++◌, some, ltb, ◌==◌, ◌≡◌, ◌⊎◌, inl, inr, refl,
  ap, sym, ◌∙◌, subst, if◌then◌else◌, All, string_eq, Bool-cases, Option-cases, arith,
}
use Prim.Native.String.{len}
use rkgw.Base.Maps.{
  Map, lookup, insert, remove, lookup-insert, lookup-insert_self, lookup-insert_cases,
}
use rkgw.Base.Text.{is_empty_str}
use rkgw.Converters.Messages.{Json}
use rkgw.Streaming.Accumulator.{ToolUse}
use rkgw.Streaming.Dedup.Occurs.{
  Occurs, Occurs-append_left, Occurs-append_right, Occurs-append_cases, values-remove,
}
use rkgw.Streaming.Dedup.{Collected, values, is_better, collect_one, collect}

module _ (to_string : Json → String) where
  -- How much of arguments a call has: none for `{}`, else more than their length.
  abbrev pub weight : ToolUse → ℕ
  weight call = if to_string call.input == "{}" then 0 else suc (len (to_string call.input))

  is_better-weight :
      (existing call : ToolUse)
      → is_better to_string existing call ≡ ltb (weight existing) (weight call)
  unfolding is_better
  is_better-weight existing call = elim (Bool-cases (to_string call.input == "{}")) [
    | inl e ↦ elim (Bool-cases (to_string existing.input == "{}")) [
      | inl f ↦ rw (e, f) (ground arith)
      | inr f ↦ rw (e, f) (ground arith)
    ]
    | inr e ↦ elim (Bool-cases (to_string existing.input == "{}")) [
      | inl f ↦ rw (e, f) (ground arith)
      | inr f ↦ rw (e, f) (ground arith)
    ]
  ]

  -- A call is in the collection: by itself, or by one with its id and no less of arguments.
  abbrev pub IsHeld : Collected → ToolUse → Type 0
  IsHeld c call =
      ((is_empty_str call.tool_use_id ≡ true) × Occurs call c.without_id)
      ⊎ ((kept : ToolUse) × (is_empty_str call.tool_use_id ≡ false)
          × (lookup call.tool_use_id c.by_id ≡ some kept)
          × (kept.tool_use_id ≡ call.tool_use_id)
          × (weight call ≤ weight kept))

  abbrev pub IsKeyed : Map String ToolUse → Type 0
  IsKeyed m = (id : String) (call : ToolUse) → lookup id m ≡ some call → call.tool_use_id ≡ id

  abbrev put : Collected → ToolUse → Collected
  put c call = record c { by_id = insert call.tool_use_id call c.by_id }

  put-IsKeyed : (c : Collected) (call : ToolUse) → IsKeyed c.by_id → IsKeyed (put c call).by_id
  put-IsKeyed c call h id other found =
      elim (lookup-insert_cases call.tool_use_id id call c.by_id found) [
        | inl (same, e) ↦ ap (λ (t : ToolUse). t.tool_use_id) e ∙ sym same
        | inr before ↦ h id other before
      ]

  put-IsHeld_self :
      (c : Collected) (call : ToolUse)
      → is_empty_str call.tool_use_id ≡ false
      → IsHeld (put c call) call
  put-IsHeld_self c call filled =
      inr (call, filled, lookup-insert_self call.tool_use_id call c.by_id, refl, omega arith)

  put-IsHeld :
      (c : Collected) (call x : ToolUse)
      → ((kept : ToolUse) → lookup call.tool_use_id c.by_id ≡ some kept → weight kept ≤ weight call)
      → IsHeld c x
      → IsHeld (put c call) x
  put-IsHeld c call x better (inl h) = inl h
  put-IsHeld c call x better (inr (kept, filled, found, same, less)) =
      elim (Bool-cases (call.tool_use_id == x.tool_use_id)) [
        | inl e ↦
            let ids = (string_eq.beq_iff call.tool_use_id x.tool_use_id).0 e in
            let more = better kept (ap (λ id. lookup id c.by_id) ids ∙ found) in
            inr (
              call,
              filled,
              (lookup-insert call.tool_use_id x.tool_use_id call c.by_id ∙ rw e refl),
              ids,
              omega (arith, more, less),
            )
        | inr e ↦ inr (
          kept,
          filled,
          (lookup-insert call.tool_use_id x.tool_use_id call c.by_id ∙ rw e found),
          same,
          less,
        )
      ]

  -- What a round does, by cases.
  collect_one-cases :
      (c : Collected) (call : ToolUse)
      → ((is_empty_str call.tool_use_id ≡ true)
          × (collect_one to_string c call ≡ record c { without_id = c.without_id ++ (call ∷ []) }))
        ⊎ ((is_empty_str call.tool_use_id ≡ false)
            × (((collect_one to_string c call ≡ put c call)
                  × ((kept : ToolUse)
                      → lookup call.tool_use_id c.by_id ≡ some kept
                      → weight kept ≤ weight call))
                ⊎ ((kept : ToolUse) × (collect_one to_string c call ≡ c)
                    × (lookup call.tool_use_id c.by_id ≡ some kept)
                    × (weight call ≤ weight kept))))
  unfolding collect_one
  collect_one-cases c call = elim (Bool-cases (is_empty_str call.tool_use_id)) [
    | inl e ↦ inl (e, rw e refl)
    | inr e ↦ elim (Option-cases (lookup call.tool_use_id c.by_id)) [
      | inl none_yet ↦
          inr (e, inl (rw (e, none_yet) refl, λ kept found. absurd (cc (sym none_yet ∙ found))))
      | inr (kept, found) ↦ elim (Bool-cases (is_better to_string kept call)) [
        | inl better ↦ inr (
          e,
          inl (
            rw (e, found) (rw better refl),
            λ other same.
                let one : other ≡ kept = cc (sym found ∙ same) in
                subst (λ (t : ToolUse). weight t ≤ weight call) (sym one)
                  (ground (arith, is_better-weight kept call)),
          ),
        )
        | inr worse ↦ inr (
          e,
          inr (
            kept,
            rw (e, found) (rw worse refl),
            found,
            ground (arith, is_better-weight kept call),
          ),
        )
      ]
    ]
  ]

  abbrev pub AllKeyed : Collected → Type 0
  AllKeyed c = IsKeyed c.by_id

  collect_one-IsKeyed :
      (c : Collected) (call : ToolUse) → AllKeyed c → AllKeyed (collect_one to_string c call)
  collect_one-IsKeyed c call h = elim (collect_one-cases c call) [
    | inl (e, same) ↦ rw same h
    | inr (e, inl (same, better)) ↦ rw same (put-IsKeyed c call h)
    | inr (e, inr (kept, same, found, less)) ↦ rw same h
  ]

  collect_one-IsHeld_self :
      (c : Collected) (call : ToolUse) → AllKeyed c → IsHeld (collect_one to_string c call) call
  collect_one-IsHeld_self c call h = elim (collect_one-cases c call) [
    | inl (e, same) ↦
        rw same (inl (e, Occurs-append_right call c.without_id (call ∷ []) (inl refl)))
    | inr (e, inl (same, better)) ↦ rw same (put-IsHeld_self c call e)
    | inr (e, inr (kept, same, found, less)) ↦
        rw same (inr (kept, e, found, h call.tool_use_id kept found, less))
  ]

  collect_one-IsHeld :
      (c : Collected) (call x : ToolUse) → IsHeld c x → IsHeld (collect_one to_string c call) x
  collect_one-IsHeld c call x h = elim (collect_one-cases c call) [
    | inl (e, same) ↦ rw same (longer h)
    | inr (e, inl (same, better)) ↦ rw same (put-IsHeld c call x better h)
    | inr (e, inr (kept, same, found, less)) ↦ rw same h
  ]
    where
      longer : IsHeld c x → IsHeld (record c { without_id = c.without_id ++ (call ∷ []) }) x
      longer (inl (e, o)) = inl (e, Occurs-append_left x c.without_id (call ∷ []) o)
      longer (inr held) = inr held

  collect-IsHeld :
      (calls : List ToolUse) (c : Collected) (x : ToolUse)
      → IsHeld c x
      → IsHeld (collect to_string c calls) x
  unfolding collect
  collect-IsHeld [] c x h = h
  collect-IsHeld (call ∷ calls) c x h =
      collect-IsHeld calls (collect_one to_string c call) x (collect_one-IsHeld c call x h)

  -- Every call that is collected is held at the end.
  pub collect-AllHeld :
      (calls : List ToolUse) (c : Collected)
      → AllKeyed c
      → All (IsHeld (collect to_string c calls)) calls
  unfolding collect
  collect-AllHeld [] c h = tt
  collect-AllHeld (call ∷ calls) c h =
      let next = collect_one to_string c call in
      (
        collect-IsHeld calls next call (collect_one-IsHeld_self c call h),
        collect-AllHeld calls next (collect_one-IsKeyed c call h),
      )

  -- Whatever is held is one of the calls, or was held before.
  pub collect-Occurs :
      (calls : List ToolUse) (c : Collected) (x : ToolUse)
      → Occurs x
          (values (collect to_string c calls).by_id ++ (collect to_string c calls).without_id)
      → Occurs x calls ⊎ Occurs x (values c.by_id ++ c.without_id)
  unfolding collect
  collect-Occurs [] c x h = inr h
  collect-Occurs (call ∷ calls) c x h =
      elim (collect-Occurs calls (collect_one to_string c call) x h) [
        | inl o ↦ inl (inr o)
        | inr o ↦ one_round o
      ]
    where
      put_round :
          Occurs x (values (put c call).by_id ++ c.without_id)
          → (x ≡ call) ⊎ Occurs x (values c.by_id ++ c.without_id)
      put_round (inl e) = inl e
      put_round (inr o) =
          elim (Occurs-append_cases x (values (remove call.tool_use_id c.by_id)) c.without_id o) [
            | inl l ↦ inr (
                Occurs-append_left x (values c.by_id) c.without_id
                  (values-remove call.tool_use_id x c.by_id l))
            | inr r ↦ inr (Occurs-append_right x (values c.by_id) c.without_id r)
          ]

      longer :
          Occurs x (values c.by_id ++ (c.without_id ++ (call ∷ [])))
          → (x ≡ call) ⊎ Occurs x (values c.by_id ++ c.without_id)
      longer o = elim (Occurs-append_cases x (values c.by_id) (c.without_id ++ (call ∷ [])) o) [
        | inl l ↦ inr (Occurs-append_left x (values c.by_id) c.without_id l)
        | inr r ↦ elim (Occurs-append_cases x c.without_id (call ∷ []) r) [
          | inl l ↦ inr (Occurs-append_right x (values c.by_id) c.without_id l)
          | inr (inl e) ↦ inl e
          | inr (inr never) ↦ absurd never
        ]
      ]

      as_call :
          (x ≡ call) ⊎ Occurs x (values c.by_id ++ c.without_id)
          → Occurs x (call ∷ calls) ⊎ Occurs x (values c.by_id ++ c.without_id)
      as_call (inl e) = inl (inl e)
      as_call (inr o) = inr o

      one_round :
          Occurs x (
            values (collect_one to_string c call).by_id
            ++ (collect_one to_string c call).without_id)
          → Occurs x (call ∷ calls) ⊎ Occurs x (values c.by_id ++ c.without_id)
      one_round o = elim (collect_one-cases c call) [
        | inl (e, same) ↦ as_call (longer (rw same at o))
        | inr (e, inl (same, better)) ↦ as_call (put_round (rw same at o))
        | inr (e, inr (kept, same, found, less)) ↦ inr (rw same at o)
      ]

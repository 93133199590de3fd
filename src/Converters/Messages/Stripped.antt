-- ===== src/Converters/Messages/Stripped.antt =====
-- `strip_all_tool_content`: without tools no message keeps tool content, and only that changes.
use rkgw.Base.{
  ℕ, ◌+◌, Bool, true, false, ◌||◌, List, [], ◌∷◌, map, any, Option, none, some, arith, ◌≡◌, ◌⊎◌,
  inl, inr, refl, ap, sym, ◌∙◌, ltb, ◌==◌, Bool-cases, string_eq, All, unwrap_or, length,
}
use rkgw.Converters.Messages.{
  UnifiedMessage, is_filled, has_tool_calls, has_tool_results, strip_message, count_tools,
  strip_all_tool_content, absorb, merge_from, merge_adjacent_messages, normalize_messages,
}
use rkgw.Converters.Messages.Paired.{is_filled-extend}
use rkgw.Converters.Messages.Merged.{role_and_images, merge_same, merge_other}

abbrev pub has_tools : UnifiedMessage → Bool
has_tools msg = has_tool_calls msg || has_tool_results msg

strip_message_cases :
    (msg : UnifiedMessage)
    → ((has_tools msg ≡ false) × (strip_message msg ≡ msg))
      ⊎ ((has_tools msg ≡ true)
          × (has_tools (strip_message msg) ≡ false)
          × ((strip_message msg).role ≡ msg.role)
          × ((strip_message msg).images ≡ msg.images))
unfolding strip_message
strip_message_cases msg = elim (Bool-cases (has_tools msg)) [
  | inl e ↦ inr (e, rw e refl, rw e refl, rw e refl)
  | inr e ↦ inl (e, rw e refl)
]

strip_message-has_tools : (msg : UnifiedMessage) → has_tools (strip_message msg) ≡ false
strip_message-has_tools msg = elim (strip_message_cases msg) [
  | inl (free, e) ↦ ap has_tools e ∙ free
  | inr (_, free, _, _) ↦ free
]

counted {ℓ} :
    {A : Type ℓ} (o : Option (List A)) (n : ℕ)
    → ltb 0 (length (unwrap_or o []) + n) ≡ is_filled o || ltb 0 n
counted none n = ground arith
counted (some []) n = ground arith
counted (some (x ∷ xs)) n = ground arith

shuffle : (a x b y : Bool) → ((a || x) || (b || y)) ≡ ((a || b) || (x || y))
shuffle a x b y = ground arith

count_tools_zero :
    (messages : List UnifiedMessage)
    → (ltb 0 (count_tools messages).0 || ltb 0 (count_tools messages).1) ≡ any has_tools messages
unfolding count_tools
count_tools_zero [] = refl
count_tools_zero (msg ∷ messages) =
    let (calls, results) = count_tools messages in
    rw (counted msg.tool_calls calls, counted msg.tool_results results)
      (shuffle (has_tool_calls msg) (ltb 0 calls) (has_tool_results msg) (ltb 0 results)
        ∙ ap (λ b. has_tools msg || b) (count_tools_zero messages))

stripped_each :
    (messages : List UnifiedMessage)
    → All (λ msg. has_tools msg ≡ false) (map strip_message messages)
      × (map role_and_images (map strip_message messages) ≡ map role_and_images messages)
      × (any has_tools messages ≡ false → map strip_message messages ≡ messages)
stripped_each [] = (tt, refl, λ e. refl)
stripped_each (msg ∷ messages) =
    let (free, kept, same) = stripped_each messages in
    elim (strip_message_cases msg) [
      | inl (no_tools, e) ↦ (
        (strip_message-has_tools msg, free),
        rw e (ap (λ l. role_and_images msg ∷ l) kept),
        λ h. rw e (ap (λ l. msg ∷ l) (same (rw no_tools at h))),
      )
      | inr (tools, _, role, images) ↦ (
        (strip_message-has_tools msg, free),
        rw (role, images) (ap (λ l. role_and_images msg ∷ l) kept),
        λ h. absurd (cc (rw tools at h)),
      )
    ]

-- Without tools in the request no message keeps calls or results, and each keeps its role and its
-- images; the flag says whether a message had any, and where none had, nothing changes.
pub strip_all_tool_content_lem :
    (messages : List UnifiedMessage)
    → let (stripped, converted) = strip_all_tool_content messages in
      All (λ msg. has_tools msg ≡ false) stripped
      × (map role_and_images stripped ≡ map role_and_images messages)
      × (converted ≡ any has_tools messages)
      × (converted ≡ false → stripped ≡ messages)
unfolding strip_all_tool_content
strip_all_tool_content_lem messages =
    let (free, kept, same) = stripped_each messages in
    (free, kept, count_tools_zero messages, λ h. same (sym (count_tools_zero messages) ∙ h))

-- A message without tool content absorbs another without bringing any.
absorb-has_tools :
    (last msg : UnifiedMessage)
    → has_tools last ≡ false
    → has_tools msg ≡ false
    → has_tools (absorb last msg) ≡ false
unfolding absorb
absorb-has_tools last msg h k =
    let calls = is_filled-extend last.tool_calls msg.tool_calls in
    let results = is_filled-extend last.tool_results msg.tool_results in
    elim (Bool-cases (msg.role == "assistant")) [
      | inl a ↦ elim (Bool-cases (msg.role == "user")) [
        | inl u ↦ rw (a, u, calls, results) (ground (arith, h, k))
        | inr u ↦ rw (a, u, calls) (ground (arith, h, k))
      ]
      | inr a ↦ elim (Bool-cases (msg.role == "user")) [
        | inl u ↦ rw (a, u, results) (ground (arith, h, k))
        | inr u ↦ rw (a, u) h
      ]
    ]

merge_from-has_tools :
    (last : UnifiedMessage) (messages : List UnifiedMessage)
    → has_tools last ≡ false
    → All (λ msg. has_tools msg ≡ false) messages
    → All (λ msg. has_tools msg ≡ false) (merge_from last messages)
unfolding merge_from
merge_from-has_tools last [] h all = (h, tt)
merge_from-has_tools last (msg ∷ messages) h all = elim (Bool-cases (msg.role == last.role)) [
  | inl same ↦
      rw (merge_same last msg messages same)
        (merge_from-has_tools (absorb last msg) messages (absorb-has_tools last msg h all.0) all.1)
  | inr other ↦
      rw (merge_other last msg messages other) (h, merge_from-has_tools msg messages all.0 all.1)
]

merge-has_tools :
    (messages : List UnifiedMessage)
    → All (λ msg. has_tools msg ≡ false) messages
    → All (λ msg. has_tools msg ≡ false) (merge_adjacent_messages messages)
unfolding merge_adjacent_messages
merge-has_tools [] all = tt
merge-has_tools (msg ∷ messages) all = merge_from-has_tools msg messages all.0 all.1

-- Without tools in the request, no message that goes on to Kiro has tool calls or tool results.
pub normalize_messages-has_tools :
    (messages : List UnifiedMessage)
    → All (λ msg. has_tools msg ≡ false) (normalize_messages true messages)
unfolding normalize_messages strip_all_tool_content
normalize_messages-has_tools messages =
    merge-has_tools (map strip_message messages) (stripped_each messages).0

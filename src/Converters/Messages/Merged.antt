-- ===== src/Converters/Messages/Merged.antt =====
-- `merge_adjacent_messages`: what it keeps of the messages, and that no two neighbours have one role.
use rkgw.Base.{
  String, true, false, List, [], ◌∷◌, ◌++◌, map, Option, none, some, ◌≡◌, inl, inr, refl, ap, sym,
  ◌∙◌, ◌==◌, if◌then◌else◌, unwrap_or, Bool-cases, string_eq, append-nil, append_assoc,
}
use text.Mathlib.TextEquality.{eq_iff}
use rkgw.Converters.Messages.{
  ToolCall, ToolResult, UnifiedImage, UnifiedMessage, extend, absorb, merge_from,
  merge_adjacent_messages,
}

abbrev pub DiffersFrom : String → List UnifiedMessage → Type 0
DiffersFrom role [] = Unit {0}
DiffersFrom role (msg ∷ messages) = (msg.role == role) ≡ false

-- No two neighbours have one role.
abbrev pub IsMerged : List UnifiedMessage → Type 0
IsMerged [] = Unit {0}
IsMerged (msg ∷ messages) = DiffersFrom msg.role messages × IsMerged messages

-- The first message of each run of messages with one role.
unfoldable pub run_heads : String → List UnifiedMessage → List UnifiedMessage
run_heads role [] = []
run_heads role (msg ∷ messages) = elim (msg.role == role) [
  | true ↦ run_heads role messages
  | false ↦ msg ∷ run_heads msg.role messages
]

abbrev pub heads : List UnifiedMessage → List UnifiedMessage
heads [] = []
heads (msg ∷ messages) = msg ∷ run_heads msg.role messages

-- What a run's message keeps of its first: the role and the images.
abbrev pub role_and_images : UnifiedMessage → String × Option (List UnifiedImage)
role_and_images msg = (msg.role, msg.images)

absorbed_role : (last msg : UnifiedMessage) → (absorb last msg).role ≡ last.role
unfolding absorb
absorbed_role last msg = refl

pub merge_same :
    (last msg : UnifiedMessage) (messages : List UnifiedMessage)
    → (msg.role == last.role) ≡ true
    → merge_from last (msg ∷ messages) ≡ merge_from (absorb last msg) messages
unfolding merge_from
merge_same last msg messages h = rw (h, merge_from) refl

pub merge_other :
    (last msg : UnifiedMessage) (messages : List UnifiedMessage)
    → (msg.role == last.role) ≡ false
    → merge_from last (msg ∷ messages) ≡ last ∷ merge_from msg messages
unfolding merge_from
merge_other last msg messages h = rw (h, merge_from) refl

-- The first message that merging gives has the role that it starts from.
merge_first :
    (last : UnifiedMessage) (messages : List UnifiedMessage) (role : String)
    → (last.role == role) ≡ false
    → DiffersFrom role (merge_from last messages)
unfolding merge_from
merge_first last [] role h = h
merge_first last (msg ∷ messages) role h = elim (Bool-cases (msg.role == last.role)) [
  | inl same ↦
      rw (merge_same last msg messages same) (merge_first (absorb last msg) messages role h)
  | inr other ↦ rw (merge_other last msg messages other) h
]

merge_from-IsMerged :
    (last : UnifiedMessage) (messages : List UnifiedMessage) → IsMerged (merge_from last messages)
unfolding merge_from
merge_from-IsMerged last [] = (tt, tt)
merge_from-IsMerged last (msg ∷ messages) = elim (Bool-cases (msg.role == last.role)) [
  | inl same ↦
      rw (merge_same last msg messages same) (merge_from-IsMerged (absorb last msg) messages)
  | inr other ↦
      rw (merge_other last msg messages other)
        (merge_first msg messages last.role other, merge_from-IsMerged msg messages)
]

-- Of the merged messages no two neighbours have one role.
pub merge_adjacent_messages-IsMerged :
    (messages : List UnifiedMessage) → IsMerged (merge_adjacent_messages messages)
unfolding merge_adjacent_messages
merge_adjacent_messages-IsMerged [] = tt
merge_adjacent_messages-IsMerged (msg ∷ messages) = merge_from-IsMerged msg messages

run_heads_step :
    (role : String) (msg : UnifiedMessage) (messages : List UnifiedMessage)
    → ((msg.role == role) ≡ true → run_heads role (msg ∷ messages) ≡ run_heads role messages)
      × ((msg.role == role) ≡ false
          → run_heads role (msg ∷ messages) ≡ msg ∷ run_heads msg.role messages)
unfolding run_heads
run_heads_step role msg messages = ((λ e. rw (e, run_heads) refl), (λ e. rw (e, run_heads) refl))

heads_of_run :
    (last : UnifiedMessage) (messages : List UnifiedMessage)
    → map role_and_images (merge_from last messages)
      ≡ role_and_images last ∷ map role_and_images (run_heads last.role messages)
unfolding merge_from run_heads
heads_of_run last [] = refl
heads_of_run last (msg ∷ messages) = elim (Bool-cases (msg.role == last.role)) [
  | inl same ↦ rw (merge_same last msg messages same) (
      rw ((run_heads_step last.role msg messages).0 same) (heads_of_run (absorb last msg) messages))
  | inr other ↦ rw (merge_other last msg messages other) (
      rw ((run_heads_step last.role msg messages).1 other)
        (ap (λ l. role_and_images last ∷ l) (heads_of_run msg messages)))
]

-- The results that user messages carry, and the calls that assistant messages carry, in order.
unfoldable pub user_results : List UnifiedMessage → List ToolResult
user_results [] = []
user_results (msg ∷ messages) =
    (if msg.role == "user" then unwrap_or msg.tool_results [] else []) ++ user_results messages

unfoldable pub assistant_calls : List UnifiedMessage → List ToolCall
assistant_calls [] = []
assistant_calls (msg ∷ messages) =
    (if msg.role == "assistant" then unwrap_or msg.tool_calls [] else [])
    ++ assistant_calls messages

-- Merging gives one message for each run of messages with one role, with the role and the images
-- of the run's first message; the images of the others are dropped.
pub merge_adjacent_messages-heads :
    (messages : List UnifiedMessage)
    → map role_and_images (merge_adjacent_messages messages) ≡ map role_and_images (heads messages)
unfolding merge_adjacent_messages
merge_adjacent_messages-heads [] = refl
merge_adjacent_messages-heads (msg ∷ messages) = heads_of_run msg messages

unwrap_or-extend {ℓ} :
    {A : Type ℓ} (old new : Option (List A))
    → unwrap_or (extend old new) [] ≡ unwrap_or old [] ++ unwrap_or new []
unwrap_or-extend none none = refl
unwrap_or-extend none (some new) = refl
unwrap_or-extend (some old) none = sym (append-nil old)
unwrap_or-extend (some old) (some new) = refl

-- A message that is absorbed gives its results, or its calls, after those of the last.
module _ (last msg : UnifiedMessage) (messages : List UnifiedMessage)
    (same : msg.role ≡ last.role) where
  user_results-absorb :
      user_results (absorb last msg ∷ messages) ≡ user_results (last ∷ msg ∷ messages)
  unfolding absorb user_results
  user_results-absorb = rw same (elim (Bool-cases (last.role == "user")) [
    | inl user ↦ rw user (
        ap (λ l. l ++ user_results messages) (unwrap_or-extend last.tool_results msg.tool_results)
        ∙ append_assoc (unwrap_or last.tool_results []) (unwrap_or msg.tool_results []) _)
    | inr other ↦ rw other refl
  ])

  assistant_calls-absorb :
      assistant_calls (absorb last msg ∷ messages) ≡ assistant_calls (last ∷ msg ∷ messages)
  unfolding absorb assistant_calls
  assistant_calls-absorb = rw same (elim (Bool-cases (last.role == "assistant")) [
    | inl assistant ↦ rw assistant (
        ap (λ l. l ++ assistant_calls messages) (unwrap_or-extend last.tool_calls msg.tool_calls)
        ∙ append_assoc (unwrap_or last.tool_calls []) (unwrap_or msg.tool_calls []) _)
    | inr other ↦ rw other refl
  ])

kept_of_run :
    (last : UnifiedMessage) (messages : List UnifiedMessage)
    → (user_results (merge_from last messages) ≡ user_results (last ∷ messages))
      × (assistant_calls (merge_from last messages) ≡ assistant_calls (last ∷ messages))
unfolding merge_from user_results assistant_calls
kept_of_run last [] = (refl, refl)
kept_of_run last (msg ∷ messages) = elim (Bool-cases (msg.role == last.role)) [
  | inl same ↦
      let e = (eq_iff msg.role last.role).0 same in
      let (r, c) = kept_of_run (absorb last msg) messages in
      rw (merge_same last msg messages same) (
        r ∙ user_results-absorb last msg messages e,
        c ∙ assistant_calls-absorb last msg messages e,
      )
  | inr other ↦
      let (r, c) = kept_of_run msg messages in
      rw (merge_other last msg messages other) (
        ap (λ l. (if last.role == "user" then unwrap_or last.tool_results [] else []) ++ l) r,
        ap (λ l. (if last.role == "assistant" then unwrap_or last.tool_calls [] else []) ++ l) c,
      )
]

-- Merging loses no result of a user message and no call of an assistant message, and keeps their
-- order.
pub merge_adjacent_messages_keeps :
    (messages : List UnifiedMessage)
    → (user_results (merge_adjacent_messages messages) ≡ user_results messages)
      × (assistant_calls (merge_adjacent_messages messages) ≡ assistant_calls messages)
unfolding merge_adjacent_messages
merge_adjacent_messages_keeps [] = (refl, refl)
merge_adjacent_messages_keeps (msg ∷ messages) = kept_of_run msg messages

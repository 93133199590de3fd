-- ===== src/Converters/Messages/Paired.antt =====
-- The pairing that the Kiro API asks for: tool results stand directly behind an assistant message
-- with tool calls. `ensure_assistant_before_tool_results` establishes it and merging keeps it.
use rkgw.Base.{
  Bool, true, false, ◌||◌, List, [], ◌∷◌, ◌++◌, Option, none, some, arith, ◌≡◌, ◌⊎◌, inl, inr, refl,
  sym, ◌∙◌, subst, ◌==◌, Bool-cases, string_eq,
}
use text.Mathlib.TextEquality.{eq_iff}
use rkgw.Converters.Messages.{
  UnifiedMessage, is_filled, has_tool_calls, has_tool_results, has_preceding_assistant,
  keep_results, ensure_from, ensure_assistant_before_tool_results, extend, absorb, merge_from,
  merge_adjacent_messages, normalize_messages,
}
use rkgw.Converters.Messages.Merged.{merge_same, merge_other}

-- Every message with tool results follows an assistant message with tool calls.
abbrev pub IsPaired : Option UnifiedMessage → List UnifiedMessage → Type 0
IsPaired last [] = Unit {0}
IsPaired last (msg ∷ messages) =
    (has_tool_results msg ≡ true → has_preceding_assistant last ≡ true)
    × IsPaired (some msg) messages

keep_results_cases :
    (last : Option UnifiedMessage) (msg : UnifiedMessage)
    → ((keep_results last msg ≡ (msg, false))
        × (has_tool_results msg ≡ true → has_preceding_assistant last ≡ true))
      ⊎ ((keep_results last msg ≡ (record msg { tool_results = none }, true))
          × (has_tool_results msg ≡ true)
          × (has_preceding_assistant last ≡ false))
unfolding keep_results
keep_results_cases last msg = elim (Bool-cases (has_tool_results msg)) [
  | inr free ↦ inl (rw free refl, λ e. absurd (cc))
  | inl filled ↦ elim (Bool-cases (has_preceding_assistant last)) [
    | inl paired ↦ inl (rw (filled, paired) refl, λ e. paired)
    | inr orphan ↦ inr (rw (filled, orphan) refl, filled, orphan)
  ]
]

ensure_from-IsPaired :
    (last : Option UnifiedMessage) (messages : List UnifiedMessage)
    → IsPaired last (ensure_from last messages).0
unfolding ensure_from
ensure_from-IsPaired last [] = tt
ensure_from-IsPaired last (msg ∷ messages) = elim (keep_results_cases last msg) [
  | inl (e, paired) ↦ rw e (paired, ensure_from-IsPaired (some msg) messages)
  | inr (e, _, _) ↦ rw e ((λ h. absurd (cc)), ensure_from-IsPaired _ messages)
]

-- Messages that are paired already are left alone; and if any results are stripped, the flag says so.
ensure_from-paired :
    (last : Option UnifiedMessage) (messages : List UnifiedMessage)
    → IsPaired last messages
    → ensure_from last messages ≡ (messages, false)
unfolding ensure_from
ensure_from-paired last [] h = refl
ensure_from-paired last (msg ∷ messages) h = elim (keep_results_cases last msg) [
  | inl (e, _) ↦ rw (e, ensure_from-paired (some msg) messages h.1) refl
  | inr (_, filled, orphan) ↦ absurd (cc (h.0 filled, orphan))
]

is_filled-append {ℓ} :
    {A : Type ℓ} (xs ys : List A)
    → is_filled (some (xs ++ ys)) ≡ is_filled (some xs) || is_filled (some ys)
is_filled-append [] ys = refl
is_filled-append (x ∷ xs) ys = refl

or_false : (b : Bool) → b ≡ b || false
or_false true = refl
or_false false = refl

pub is_filled-extend {ℓ} :
    {A : Type ℓ} (old new : Option (List A))
    → is_filled (extend old new) ≡ is_filled old || is_filled new
is_filled-extend old none = or_false (is_filled old)
is_filled-extend none (some new) = refl
is_filled-extend (some old) (some new) = is_filled-append old new

or_true : (b : Bool) → (b || true) ≡ true
or_true true = refl
or_true false = refl

-- A user message is no assistant's.
user_role :
    (last : UnifiedMessage)
    → (last.role == "user") ≡ true
    → has_preceding_assistant (some last) ≡ false
user_role last h = rw ((eq_iff last.role "user").0 h) refl

module _ (last msg : UnifiedMessage) (same : msg.role ≡ last.role) where
  -- A user message that is absorbed brings no results where its own are paired.
  absorb-has_tool_results :
      (msg.role == "user" ≡ true → has_tool_results msg ≡ false)
      → has_tool_results (absorb last msg) ≡ true
      → has_tool_results last ≡ true
  unfolding absorb
  absorb-has_tool_results alone h = elim (Bool-cases (msg.role == "user")) [
    | inr other ↦ rw other at h
    | inl user ↦
        let both : (is_filled last.tool_results || is_filled msg.tool_results) ≡ true =
          sym (is_filled-extend last.tool_results msg.tool_results) ∙ (rw user at h) in
        ground (arith, both, alone user)
  ]

  absorb-has_preceding_assistant :
      has_preceding_assistant (some msg) ≡ true
      → has_preceding_assistant (some (absorb last msg)) ≡ true
  unfolding absorb
  absorb-has_preceding_assistant h = elim (Bool-cases (msg.role == "assistant")) [
    | inr other ↦ absurd (cc (rw other at h))
    | inl assistant ↦
        let role : (last.role == "assistant") ≡ true =
          subst (λ r. (r == "assistant") ≡ true) same assistant in
        let calls : has_tool_calls msg ≡ true = rw assistant at h in
        rw (role, assistant, is_filled-extend last.tool_calls msg.tool_calls, calls)
          (or_true (is_filled last.tool_calls))
  ]

-- Behind a user message, a message has no results where they are paired.
unpaired_user :
    (last msg : UnifiedMessage)
    → (has_tool_results msg ≡ true → has_preceding_assistant (some last) ≡ true)
    → (last.role == "user") ≡ true
    → has_tool_results msg ≡ false
unpaired_user last msg paired user = elim (Bool-cases (has_tool_results msg)) [
  | inr none_here ↦ none_here
  | inl filled ↦ absurd (cc (paired filled, user_role last user))
]

-- From a first message on, merged messages stay paired, if the message that was merged into has
-- the role and the calls of the last one that went in.
merge_from-IsPaired :
    (before : Option UnifiedMessage) (last last_in : UnifiedMessage)
    (messages : List UnifiedMessage)
    → (has_tool_results last ≡ true → has_preceding_assistant before ≡ true)
    → last_in.role ≡ last.role
    → (has_preceding_assistant (some last_in) ≡ true → has_preceding_assistant (some last) ≡ true)
    → IsPaired (some last_in) messages
    → IsPaired before (merge_from last messages)
unfolding merge_from
merge_from-IsPaired before last last_in [] paired role calls h = (paired, tt)
merge_from-IsPaired before last last_in (msg ∷ messages) paired role calls h =
    elim (Bool-cases (msg.role == last.role)) [
      | inr other ↦ rw (merge_other last msg messages other) (
        paired,
        merge_from-IsPaired (some last) msg msg messages (λ r. calls (h.0 r)) refl (λ r. r) h.1,
      )
      | inl same ↦
          let e = (eq_iff msg.role last.role).0 same in
          rw (merge_same last msg messages same) (
            merge_from-IsPaired before (absorb last msg) msg messages
              (λ r. paired (
                absorb-has_tool_results last msg e
                  (λ user.
                    unpaired_user last_in msg h.0
                      (subst (λ r. (r == "user") ≡ true) (e ∙ sym role) user))
                  r))
              e (absorb-has_preceding_assistant last msg e) h.1)
    ]

merge-IsPaired :
    (messages : List UnifiedMessage)
    → IsPaired none messages
    → IsPaired none (merge_adjacent_messages messages)
unfolding merge_adjacent_messages
merge-IsPaired [] h = tt
merge-IsPaired (msg ∷ messages) h = merge_from-IsPaired none msg msg messages h.0 refl (λ r. r) h.1

-- With tools, the messages that go on to Kiro have tool results only directly behind an assistant
-- message with tool calls, also after merging.
pub normalize_messages-IsPaired :
    (messages : List UnifiedMessage) → IsPaired none (normalize_messages false messages)
unfolding normalize_messages ensure_assistant_before_tool_results
normalize_messages-IsPaired messages =
    merge-IsPaired (ensure_from none messages).0 (ensure_from-IsPaired none messages)

-- Messages whose results are paired already are left as they are, with the flag down.
pub ensure_assistant_before_tool_results-paired :
    (messages : List UnifiedMessage)
    → IsPaired none messages
    → ensure_assistant_before_tool_results messages ≡ (messages, false)
unfolding ensure_assistant_before_tool_results
ensure_assistant_before_tool_results-paired messages h = ensure_from-paired none messages h

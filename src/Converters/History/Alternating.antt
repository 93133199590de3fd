-- ===== src/Converters/History/Alternating.antt =====
-- The order of a history's entries: the assistant answers the user, and from merged messages the two
-- alternate.
use rkgw.Base.{
  ℕ, String, Bool, true, false, List, [], ◌∷◌, ◌++◌, Option, ◌≡◌, ◌⊎◌, inl, inr, refl, ap, subst,
  ◌==◌, if◌then◌else◌, Bool-cases, string_eq, All, append_assoc,
}
use text.Mathlib.TextEquality.{eq_iff}
use rkgw.Converters.Messages.{Json, UnifiedMessage}
use rkgw.Converters.Messages.Merged.{IsMerged, DiffersFrom}
use rkgw.Converters.History.{
  HistoryEntry, UserInput, user_input_message, assistant_response_message, build_kiro_user_input,
  build_kiro_assistant_response, synthetic_user_input, history_from, build_kiro_history,
  final_history,
}

-- Each assistant entry directly follows a user entry; the flag says that one stands before.
abbrev pub IsAnswered : Bool → List HistoryEntry → Type 0
IsAnswered b [] = Unit {0}
IsAnswered b (user_input_message u ∷ entries) = IsAnswered true entries
IsAnswered b (assistant_response_message a ∷ entries) = (b ≡ true) × IsAnswered false entries

-- The entries alternate, from a user's or an assistant's entry on.
abbrev pub IsAlternating : Bool → List HistoryEntry → Type 0
IsAlternating b [] = Unit {0}
IsAlternating b (user_input_message u ∷ entries) = (b ≡ false) × IsAlternating true entries
IsAlternating b (assistant_response_message a ∷ entries) = (b ≡ true) × IsAlternating false entries

if_append :
    (b : Bool) (s e : HistoryEntry) (l l' y : List HistoryEntry)
    → l ≡ l' ++ y
    → (if b then e ∷ l else s ∷ e ∷ l) ≡ (if b then e ∷ l' else s ∷ e ∷ l') ++ y
if_append true s e l l' y h = ap (λ k. e ∷ k) h
if_append false s e l l' y h = ap (λ k. s ∷ e ∷ k) h

two_users :
    (b : Bool) (u v : UserInput) (entries rest : List HistoryEntry)
    → IsAlternating b (entries ++ (user_input_message u ∷ user_input_message v ∷ rest))
    → ⊥
two_users b u v [] rest h = cc (h.1.0)
two_users b u v (user_input_message w ∷ entries) rest h = two_users true u v entries rest h.1
two_users b u v (assistant_response_message w ∷ entries) rest h =
    two_users false u v entries rest h.1

module _ (from_str : String → Option Json) (printed_len : Json → ℕ) (model_id : String) where
  abbrev history : Bool → List UnifiedMessage → List HistoryEntry
  history b messages = history_from from_str printed_len b messages model_id

  abbrev answer : UnifiedMessage → HistoryEntry
  answer msg = assistant_response_message (build_kiro_assistant_response from_str printed_len msg)

  -- What one message adds.
  history_cases :
      (b : Bool) (msg : UnifiedMessage) (messages : List UnifiedMessage)
      → ((msg.role ≡ "user")
          × (history b (msg ∷ messages)
              ≡ user_input_message (build_kiro_user_input msg model_id) ∷ history true messages))
        ⊎ (((msg.role ≡ "assistant")
              × (b ≡ true)
              × (history b (msg ∷ messages) ≡ answer msg ∷ history false messages))
            ⊎ (((msg.role ≡ "assistant")
                  × (b ≡ false)
                  × (history b (msg ∷ messages)
                      ≡ user_input_message (synthetic_user_input model_id)
                        ∷ answer msg
                        ∷ history false messages))
                ⊎ (((msg.role == "user") ≡ false)
                    × ((msg.role == "assistant") ≡ false)
                    × (history b (msg ∷ messages) ≡ history b messages))))
  unfolding history_from
  history_cases b msg messages = elim (Bool-cases (msg.role == "user")) [
    | inl user ↦ inl ((eq_iff msg.role "user").0 user, rw (user, history_from) refl)
    | inr other ↦ elim (Bool-cases (msg.role == "assistant")) [
      | inr none_of_both ↦
          inr (inr (inr (other, none_of_both, rw (other, history_from) (rw none_of_both refl))))
      | inl assistant ↦
          let role = (eq_iff msg.role "assistant").0 assistant in
          elim (Bool-cases b) [
            | inl on ↦ inr (inl (role, on, rw (other, history_from) (rw (assistant, on) refl)))
            | inr off ↦
                inr (inr (inl (role, off, rw (other, history_from) (rw (assistant, off) refl))))
          ]
    ]
  ]

  answered : (b : Bool) (messages : List UnifiedMessage) → IsAnswered b (history b messages)
  unfolding history_from
  answered b [] = tt
  answered b (msg ∷ messages) = elim (history_cases b msg messages) [
    | inl (_, e) ↦ rw e (answered true messages)
    | inr (inl (_, on, e)) ↦ rw e (on, answered false messages)
    | inr (inr (inl (_, _, e))) ↦ rw e (refl, answered false messages)
    | inr (inr (inr (_, _, e))) ↦ rw e (answered b messages)
  ]

  -- In a history that is built from any messages, each assistant entry directly follows a user entry.
  pub build_kiro_history-IsAnswered :
      (messages : List UnifiedMessage)
      → IsAnswered false (build_kiro_history from_str printed_len messages model_id)
  unfolding build_kiro_history
  build_kiro_history-IsAnswered messages = answered false messages

  abbrev pub IsChat : List UnifiedMessage → Type 0
  IsChat messages = All (λ msg. (msg.role ≡ "user") ⊎ (msg.role ≡ "assistant")) messages

  after_user :
      (b : Bool) (msg : UnifiedMessage)
      → msg.role ≡ "user"
      → (b ≡ true → (msg.role == "user") ≡ false)
      → b ≡ false
  after_user true msg user differs = cc (differs refl, (eq_iff msg.role "user").1 user)
  after_user false msg user differs = refl

  no_role :
      (msg : UnifiedMessage)
      → (msg.role ≡ "user") ⊎ (msg.role ≡ "assistant")
      → (msg.role == "user") ≡ false
      → (msg.role == "assistant") ≡ false
      → ⊥
  no_role msg (inl user) h k = cc (h, (eq_iff msg.role "user").1 user)
  no_role msg (inr assistant) h k = cc (k, (eq_iff msg.role "assistant").1 assistant)

  alternating :
      (b : Bool) (messages : List UnifiedMessage)
      → IsMerged messages
      → IsChat messages
      → (b ≡ true → DiffersFrom "user" messages)
      → IsAlternating b (history b messages)
  unfolding history_from
  alternating b [] merged chat differs = tt
  alternating b (msg ∷ messages) (next, merged) (role, chat) differs =
      elim (history_cases b msg messages) [
        | inl (user, e) ↦ rw e (
          after_user b msg user differs,
          alternating true messages merged chat
              (λ _. subst (λ r. DiffersFrom r messages) user next),
        )
        | inr (inl (assistant, on, e)) ↦
            rw e (on, alternating false messages merged chat (λ x. absurd (cc)))
        | inr (inr (inl (assistant, off, e))) ↦
            rw e (off, (refl, alternating false messages merged chat (λ x. absurd (cc))))
        | inr (inr (inr (not_user, not_assistant, e))) ↦
            absurd (no_role msg role not_user not_assistant)
      ]

  -- From merged messages of users and assistants, a history begins with a user entry and the two
  -- kinds alternate.
  pub build_kiro_history-IsAlternating :
      (messages : List UnifiedMessage)
      → IsMerged messages
      → IsChat messages
      → IsAlternating false (build_kiro_history from_str printed_len messages model_id)
  unfolding build_kiro_history
  build_kiro_history-IsAlternating messages merged chat =
      alternating false messages merged chat (λ x. absurd (cc))

  history_append :
      (b : Bool) (messages : List UnifiedMessage) (last : UnifiedMessage)
      → (last.role == "user") ≡ true
      → history b (messages ++ (last ∷ []))
        ≡ history b messages ++ (user_input_message (build_kiro_user_input last model_id) ∷ [])
  unfolding history_from
  history_append b [] last user = rw (user, history_from) refl
  history_append b (msg ∷ messages) last user = elim (Bool-cases (msg.role == "user")) [
    | inl u ↦
        rw (u, history_from)
          (ap (λ l. user_input_message (build_kiro_user_input msg model_id) ∷ l)
            (history_append true messages last user))
    | inr u ↦ elim (Bool-cases (msg.role == "assistant")) [
      | inl a ↦
          rw (u, history_from)
            (rw a (
              if_append b (user_input_message (synthetic_user_input model_id)) (answer msg) _ _ _
                (history_append false messages last user)))
      | inr a ↦ rw (u, history_from) (rw a (history_append b messages last user))
    ]
  ]

  -- Where the last message is the assistant's and the one before is a user's, the history that is
  -- sent does not alternate: the synthetic user entry follows the user's own.
  pub final_history-IsAlternating :
      (messages : List UnifiedMessage) (last current : UnifiedMessage) (content : String)
      → (last.role == "user") ≡ true
      → (current.role == "assistant") ≡ true
      → ¬ IsAlternating false
          (final_history from_str printed_len (messages ++ (last ∷ [])) current content model_id)
  unfolding final_history build_kiro_history
  final_history-IsAlternating messages last current content user assistant h =
      let entries = history false messages in
      two_users false _ _ entries _ (
        subst (IsAlternating false)
          (append_assoc entries (user_input_message (build_kiro_user_input last model_id) ∷ []) _)
          (rw (assistant, history_append false messages last user) at h))

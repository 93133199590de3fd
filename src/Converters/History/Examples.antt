-- ===== src/Converters/History/Examples.antt =====
-- Histories of a short chat.
use rkgw.Base.{ℕ, String, true, false, [], ◌∷◌, ◌++◌, map, Option, none, some, ◌≡◌, inl, inr, refl}
use rkgw.Base.Text.{starts_with, split_once, strip_prefix}
use rkgw.Converters.Messages.{Json, text, UnifiedMessage}
use rkgw.Converters.History.{
  is_user_entry, history_from, build_kiro_history, final_history, parse_data_url,
}
use rkgw.Converters.History.Alternating.{
  IsAlternating, build_kiro_history-IsAlternating, final_history-IsAlternating,
}

abbrev says : String → String → UnifiedMessage
says role words = record {
  role = role;
  content = text words;
  tool_calls = none;
  tool_results = none;
  images = none;
}

abbrev no_json : String → Option Json
no_json s = none

abbrev no_length : Json → ℕ
no_length j = 0

-- A last message of the assistant brings two user entries in a row.
final_history_run :
    map is_user_entry (
      final_history no_json no_length
        (says "user" "Hi" ∷ [])
        (says "assistant" "Hello")
        "Hello"
        "m")
    ≡ true ∷ true ∷ false ∷ []
unfolding final_history build_kiro_history history_from
final_history_run = refl

final_history-IsAlternating_example : ¬ IsAlternating false (
    final_history no_json no_length
      ([] ++ (says "user" "Hi" ∷ []))
      (says "assistant" "Hello")
      "Hello"
      "m")
final_history-IsAlternating_example =
    final_history-IsAlternating no_json no_length "m" [] (says "user" "Hi")
      (says "assistant" "Hello") "Hello" refl refl

build_kiro_history-IsAlternating_example :
    IsAlternating false
      (build_kiro_history no_json no_length (says "assistant" "Hello" ∷ says "user" "Hi" ∷ []) "m")
build_kiro_history-IsAlternating_example =
    build_kiro_history-IsAlternating no_json no_length "m"
      (says "assistant" "Hello" ∷ says "user" "Hi" ∷ []) (refl, (tt, tt)) (inr refl, (inl refl, tt))

data_url_run : parse_data_url "data:image/png;base64,AA==" ≡ some ("image/png", "AA==")
unfolding parse_data_url starts_with split_once strip_prefix
data_url_run = refl

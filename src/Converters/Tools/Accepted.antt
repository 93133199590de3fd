-- ===== src/Converters/Tools/Accepted.antt =====
-- What Kiro gets of the tools: each under its name, with a description and a clean schema.
use Prim.Native.String.append
use Prim.Native.String.{◌++◌ as join, len}
use rkgw.Base.{
  ℕ, String, true, false, List, [], ◌∷◌, Option, none, some, ◌≡◌, ◌⊎◌, inl, inr, refl, ap, ◌∙◌,
  arith, leb, eqb, ◌≤◌, Bool-cases, All, unwrap_or,
}
use rkgw.Base.Chars.{is_whitespace}
use rkgw.Converters.Messages.{Json}
use rkgw.Converters.Schema.Clean.{IsClean, sanitize_json_schema-IsClean}
use rkgw.Converters.Tools.{
  UnifiedTool, is_blank, reference_description, process_tool, process_all,
  process_tools_with_long_descriptions, KiroTool, kiro_description, kiro_schema, kiro_tools,
  unless_empty, convert_tools_to_kiro_format,
}

abbrev pub IsAccepted : KiroTool → Type 0
IsAccepted tool = (is_blank tool.description ≡ false) × IsClean tool.json

abbrev pub tool_names : List UnifiedTool → List String
tool_names [] = []
tool_names (tool ∷ tools) = tool.name ∷ tool_names tools

abbrev pub kiro_names : List KiroTool → List String
kiro_names [] = []
kiro_names (tool ∷ tools) = tool.name ∷ kiro_names tools

named_not_blank : (name : String) → is_blank (join "Tool: " name) ≡ false
unfolding is_blank is_whitespace
named_not_blank name = ap is_blank (append.cons "T" "ool: " name) ∙ refl

kiro_description-is_blank : (tool : UnifiedTool) → is_blank (kiro_description tool) ≡ false
unfolding kiro_description
kiro_description-is_blank tool = elim (Bool-cases (is_blank (unwrap_or tool.description ""))) [
  | inl blank ↦ rw blank (named_not_blank tool.name)
  | inr written ↦ rw written written
]

kiro_schema-IsClean : (schema : Option Json) → IsClean (kiro_schema schema)
kiro_schema-IsClean none = tt
kiro_schema-IsClean (some schema) = sanitize_json_schema-IsClean schema

accepted :
    (tools : List UnifiedTool)
    → All IsAccepted (kiro_tools tools) × (kiro_names (kiro_tools tools) ≡ tool_names tools)
unfolding kiro_tools
accepted [] = (tt, refl)
accepted (tool ∷ tools) =
    let (rest, names) = accepted tools in
    (
      ((kiro_description-is_blank tool, kiro_schema-IsClean tool.input_schema), rest),
      ap (λ l. tool.name ∷ l) names,
    )

-- Each tool goes to Kiro, in order and under its name, with a description that is not blank and a
-- clean schema.
pub convert_tools_to_kiro_format-IsAccepted :
    (tools : Option (List UnifiedTool))
    → let sent = convert_tools_to_kiro_format tools in
      All IsAccepted sent × (kiro_names sent ≡ tool_names (unwrap_or tools []))
unfolding convert_tools_to_kiro_format
convert_tools_to_kiro_format-IsAccepted none = (tt, refl)
convert_tools_to_kiro_format-IsAccepted (some tools) = accepted tools

-- A processed tool is the tool itself with a short description, or points to the documentation.
abbrev pub IsProcessed : ℕ → UnifiedTool → UnifiedTool → Type 0
IsProcessed max_length tool sent =
    ((sent ≡ tool) × (len (unwrap_or tool.description "") ≤ max_length))
    ⊎ (sent ≡ record tool { description = some (reference_description tool.name) })

abbrev pub AreProcessed : ℕ → List UnifiedTool → List UnifiedTool → Type 0
AreProcessed max_length [] [] = Unit {0}
AreProcessed max_length (tool ∷ tools) (sent ∷ all_sent) =
    IsProcessed max_length tool sent × AreProcessed max_length tools all_sent
AreProcessed max_length _ _ = ⊥

process_tool-IsProcessed :
    (max_length : ℕ) (tool : UnifiedTool)
    → IsProcessed max_length tool (process_tool max_length tool).0
unfolding process_tool
process_tool-IsProcessed max_length tool =
    elim (leb_cases (len (unwrap_or tool.description "")) max_length) [
      | inl (fits, short) ↦ rw short (inl (refl, fits))
      | inr long ↦ rw long (inr refl)
    ]
  where
    leb_cases : (m n : ℕ) → ((m ≤ n) × (leb m n ≡ true)) ⊎ (leb m n ≡ false)
    leb_cases m n = ground arith

process_all-AreProcessed :
    (max_length : ℕ) (tools : List UnifiedTool)
    → AreProcessed max_length tools (process_all max_length tools).0
unfolding process_all
process_all-AreProcessed max_length [] = tt
process_all-AreProcessed max_length (tool ∷ tools) =
    (process_tool-IsProcessed max_length tool, process_all-AreProcessed max_length tools)

unwrap_or-unless_empty :
    (max_length : ℕ) (tools sent : List UnifiedTool)
    → AreProcessed max_length tools sent
    → AreProcessed max_length tools (unwrap_or (unless_empty sent) [])
unwrap_or-unless_empty max_length tools [] h = h
unwrap_or-unless_empty max_length tools (tool ∷ sent) h = h

-- With a limit on the length of descriptions, every tool is sent, in order: as it is, with a
-- description within the limit, or with a description that points to the documentation.
pub process_tools_with_long_descriptions-AreProcessed :
    (tools : List UnifiedTool) (max_length : ℕ)
    → 1 ≤ max_length
    → AreProcessed max_length tools
        (unwrap_or (process_tools_with_long_descriptions (some tools) max_length).0 [])
unfolding process_tools_with_long_descriptions
process_tools_with_long_descriptions-AreProcessed tools max_length limited =
    rw (positive max_length limited)
      (unwrap_or-unless_empty max_length tools _ (process_all-AreProcessed max_length tools))
  where
    positive : (n : ℕ) → 1 ≤ n → eqb n 0 ≡ false
    positive n h = ground arith

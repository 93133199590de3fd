-- ===== src/Converters/Tools.antt =====
-- backend/src/converters/core.rs: tools with long descriptions, and the tools of a Kiro request.
pub mod Accepted
mod Examples
use Prim.Native.Char.{Char, code}
use Prim.Native.String.{[] as empty, ◌∷◌ as char_cons, ◌++◌ as join, len}
use rkgw.Base.{
  ℕ, String, Bool, true, false, ◌&&◌, List, [], ◌∷◌, Option, none, some, leb, eqb, ◌==◌,
  if◌then◌else◌, is_empty, unwrap_or,
}
use rkgw.Base.Chars.{is_whitespace}
use rkgw.Converters.Messages.{Json, object, done}
use rkgw.Converters.Schema.{sanitize_json_schema}

pub record UnifiedTool : Type 0 where
  pub name : String
  pub description : Option String
  pub input_schema : Option Json

-- `d.trim().is_empty()`
unfoldable pub is_blank : String → Bool
is_blank empty = true
is_blank (char_cons c s) = is_whitespace (code c) && is_blank s

unfoldable pub reference_description : String → String
reference_description name =
    join "[Full documentation in system prompt under '## Tool: " (join name "']")

-- One round of the loop: the tool to send, and the part of the documentation that it leaves.
unfoldable pub process_tool : ℕ → UnifiedTool → UnifiedTool × Option String
unfolding reference_description
process_tool max_length tool =
    let description = unwrap_or tool.description "" in
    if leb (len description) max_length then (tool, none) else (
      record tool { description = some (reference_description tool.name) },
      some (join "## Tool: " (join tool.name (join "\n\n" description))),
    )

abbrev push_doc : Option String → List String → List String
push_doc none docs = docs
push_doc (some doc) docs = doc ∷ docs

unfoldable pub process_all : ℕ → List UnifiedTool → List UnifiedTool × List String
unfolding process_tool
process_all max_length [] = ([], [])
process_all max_length (tool ∷ tools) =
    let (processed, doc) = process_tool max_length tool in
    let (rest, docs) = process_all max_length tools in (processed ∷ rest, push_doc doc docs)

-- `parts.join("\n\n---\n\n")`
unfoldable pub join_docs : List String → String
join_docs [] = ""
join_docs (doc ∷ []) = doc
join_docs (doc ∷ docs) = join doc (join "\n\n---\n\n" (join_docs docs))

unfoldable pub tool_documentation : List String → String
unfolding join_docs
tool_documentation [] = ""
tool_documentation docs =
    join
      "\n\n---\n# Tool Documentation\nThe following tools have detailed documentation that couldn't fit in the tool definition.\n\n"
      (join_docs docs)

abbrev pub unless_empty : List UnifiedTool → Option (List UnifiedTool)
unless_empty [] = none
unless_empty (tool ∷ tools) = some (tool ∷ tools)

unfoldable pub process_tools_with_long_descriptions :
    Option (List UnifiedTool) → ℕ → Option (List UnifiedTool) × String
unfolding process_all tool_documentation
process_tools_with_long_descriptions none max_length = (none, "")
process_tools_with_long_descriptions (some tools) max_length =
    let (processed, docs) = process_all max_length tools in
    if eqb max_length 0 then (some tools, "") else (unless_empty processed, tool_documentation docs)

pub record KiroTool : Type 0 where
  pub name : String
  pub description : String
  pub json : Json

unfoldable pub kiro_description : UnifiedTool → String
unfolding is_blank
kiro_description tool =
    let description = unwrap_or tool.description "" in
    if is_blank description then join "Tool: " tool.name else description

abbrev pub kiro_schema : Option Json → Json
kiro_schema none = object done
kiro_schema (some schema) = sanitize_json_schema schema

unfoldable pub kiro_tools : List UnifiedTool → List KiroTool
unfolding kiro_description
kiro_tools [] = []
kiro_tools (tool ∷ tools) =
    record {
      name = tool.name;
      description = kiro_description tool;
      json = kiro_schema tool.input_schema;
    }
    ∷ kiro_tools tools

unfoldable pub convert_tools_to_kiro_format : Option (List UnifiedTool) → List KiroTool
unfolding kiro_tools
convert_tools_to_kiro_format none = []
convert_tools_to_kiro_format (some tools) = kiro_tools tools

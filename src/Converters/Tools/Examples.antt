-- ===== src/Converters/Tools/Examples.antt =====
-- Two tools, one without a description and one with a long one.
use rkgw.Base.{List, [], ◌∷◌, none, some, ◌≡◌, All, unwrap_or}
use rkgw.Converters.Tools.{UnifiedTool, convert_tools_to_kiro_format}
use rkgw.Converters.Tools.Accepted.{
  IsAccepted, kiro_names, tool_names, convert_tools_to_kiro_format-IsAccepted,
}

abbrev tools : List UnifiedTool
tools =
    record { name = "shot"; description = none; input_schema = none }
    ∷ record { name = "read"; description = some "Reads a file from the disk"; input_schema = none }
    ∷ []

convert_tools_to_kiro_format-IsAccepted_example :
    let sent = convert_tools_to_kiro_format (some tools) in
    All IsAccepted sent × (kiro_names sent ≡ tool_names (unwrap_or (some tools) []))
convert_tools_to_kiro_format-IsAccepted_example =
    convert_tools_to_kiro_format-IsAccepted (some tools)

-- ===== src/Truncation/Anthropic.antt =====
-- backend/src/truncation.rs: the notices that go into the messages of an Anthropic request.
use Prim.Native.String.{◌++◌ as join}
use rkgw.Base.{List, String, Option, none, some, ◌==◌, if◌then◌else◌, string_eq}
use rkgw.Converters.Messages.{Json, string, array, Items, end, item}
use rkgw.Converters.Choice.{get}
use rkgw.Truncation.{TruncationState, get_content_truncation}
use rkgw.Truncation.Inject.{set, text_at, recover_tool_result, synthetic_notice, inject}

unfoldable pub recover_block : TruncationState → Json → TruncationState × Json
unfolding recover_tool_result get
recover_block state block =
    if text_at block "type" == "tool_result"
    then recover_tool_result "tool_use_id" state block
    else (state, block)

unfoldable pub recover_blocks : TruncationState → Items → TruncationState × Items
unfolding recover_block
recover_blocks state end = (state, end)
recover_blocks state (item block blocks) =
    let (seen, recovered) = recover_block state block in
    let (left, rest) = recover_blocks seen blocks in (left, item recovered rest)

unfoldable pub recover_content_blocks :
    TruncationState → Json → Option Json → TruncationState × Json
unfolding recover_blocks set
recover_content_blocks state msg (some (array blocks)) =
    let (left, recovered) = recover_blocks state blocks in
    (left, set msg "content" (array recovered))
recover_content_blocks state msg _ = (state, msg)

unfoldable pub joined_texts : Items → String
unfolding get
joined_texts end = ""
joined_texts (item block blocks) =
    let rest = joined_texts blocks in
    if text_at block "type" == "text" then join (text_at block "text") rest else rest

abbrev pub text_of_content : Option Json → String
text_of_content (some (string s)) = s
text_of_content (some (array blocks)) = joined_texts blocks
text_of_content _ = ""

unfoldable pub extract_anthropic_text_content : Json → String
unfolding joined_texts get
extract_anthropic_text_content msg = text_of_content (get msg "content")

module _ (short_hash : String → String) where
  unfoldable pub recover_anthropic_content : TruncationState → Json → TruncationState × Option Json
  unfolding extract_anthropic_text_content synthetic_notice get_content_truncation
  recover_anthropic_content state msg =
      let content = extract_anthropic_text_content msg in
      if content == ""
      then (state, none)
      else synthetic_notice (get_content_truncation short_hash state content)

  -- One round of the loop.
  unfoldable pub recover_anthropic_message :
      TruncationState → Json → TruncationState × Json × Option Json
  unfolding recover_content_blocks recover_anthropic_content get
  recover_anthropic_message state msg =
      let role = text_at msg "role" in
      let (seen, recovered) =
        if role == "user"
        then recover_content_blocks state msg (get msg "content")
        else (state, msg) in
      let (left, notice) =
        if role == "assistant" then recover_anthropic_content seen recovered else (seen, none) in
      (left, recovered, notice)

  unfoldable pub inject_anthropic_truncation_recovery :
      TruncationState → List Json → TruncationState × List Json
  unfolding inject recover_anthropic_message
  inject_anthropic_truncation_recovery state messages =
      inject recover_anthropic_message state messages

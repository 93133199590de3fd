-- ===== src/Truncation.antt =====
-- backend/src/truncation.rs: the cache of what was truncated, which keeps an entry for one retrieval.
pub mod Once
pub mod Inject
pub mod Diagnosis
pub mod Anthropic
mod Examples
use Prim.Native.Char.{Char}
use Prim.Native.String.{[] as empty, ◌∷◌ as char_cons}
use rkgw.Base.{List, [], ◌∷◌, ℕ, zero, suc, String, Bool, Option, none, some, ◌==◌, string_eq}
use rkgw.Base.Maps.{Map, lookup, insert, remove}

pub record TruncationInfo : Type 0 where
  pub is_truncated : Bool
  pub reason : String
  pub size_bytes : ℕ

pub record ToolTruncationEntry : Type 0 where
  pub tool_name : String
  pub info : TruncationInfo

pub record ContentTruncationEntry : Type 0 where
  pub content_hash : String

pub record TruncationState : Type 0 where
  pub tool_cache : Map String ToolTruncationEntry
  pub content_cache : Map String ContentTruncationEntry

abbrev pub new : TruncationState
new = record { tool_cache = []; content_cache = [] }

unfoldable pub save_tool_truncation :
    TruncationState → String → String → TruncationInfo → TruncationState
unfolding insert
save_tool_truncation state tool_call_id tool_name info = record state {
  tool_cache = insert tool_call_id (record { tool_name = tool_name; info = info }) state.tool_cache;
}

unfoldable pub get_tool_truncation :
    TruncationState → String → TruncationState × Option ToolTruncationEntry
unfolding lookup remove
get_tool_truncation state tool_call_id = (
  record state { tool_cache = remove tool_call_id state.tool_cache },
  lookup tool_call_id state.tool_cache,
)

-- `content.chars().take(n).collect()`
unfoldable pub take_chars : ℕ → String → String
take_chars zero s = empty
take_chars (suc n) empty = empty
take_chars (suc n) (char_cons c s) = char_cons c (take_chars n s)

-- `short_hash` is the first eight bytes of the SHA-256 of a text, in hexadecimal.
module _ (short_hash : String → String) where
  unfoldable pub content_hash : String → String
  unfolding take_chars
  content_hash content = short_hash (take_chars 500 content)

  unfoldable pub save_content_truncation : TruncationState → String → TruncationState
  unfolding content_hash insert
  save_content_truncation state content =
      let hash = content_hash content in
      record state {
        content_cache = insert hash (record { content_hash = hash }) state.content_cache;
      }

  unfoldable pub get_content_truncation :
      TruncationState → String → TruncationState × Option ContentTruncationEntry
  unfolding content_hash lookup remove
  get_content_truncation state content =
      let hash = content_hash content in
      (
        record state { content_cache = remove hash state.content_cache },
        lookup hash state.content_cache,
      )

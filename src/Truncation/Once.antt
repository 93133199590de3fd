-- ===== src/Truncation/Once.antt =====
-- What a retrieval from the truncation cache answers, after any history of its operations.
use rkgw.Base.{List, [], ◌∷◌, String, Option, none, some, ◌≡◌, refl, ◌==◌, if◌then◌else◌, string_eq}
use rkgw.Base.Maps.{lookup, lookup-remove, lookup-insert}
use rkgw.Truncation.{
  TruncationInfo, ToolTruncationEntry, ContentTruncationEntry, TruncationState, new,
  save_tool_truncation, get_tool_truncation, content_hash, save_content_truncation,
  get_content_truncation,
}

pub data Operation : Type 0 where
  save_tool : String → String → TruncationInfo → Operation
  get_tool : String → Operation
  save_content : String → Operation
  get_content : String → Operation

-- What the history has saved for a tool call and not handed out since; the last operation comes first.
unfoldable pub pending_tool : String → List Operation → Option ToolTruncationEntry
pending_tool id [] = none
pending_tool id (save_tool saved name info ∷ earlier) =
    let rest = pending_tool id earlier in
    if saved == id then some (record { tool_name = name; info = info }) else rest
pending_tool id (get_tool taken ∷ earlier) =
    let rest = pending_tool id earlier in if taken == id then none else rest
pending_tool id (save_content content ∷ earlier) = pending_tool id earlier
pending_tool id (get_content content ∷ earlier) = pending_tool id earlier

module _ (short_hash : String → String) where
  unfoldable pub step : TruncationState → Operation → TruncationState
  unfolding save_tool_truncation get_tool_truncation save_content_truncation get_content_truncation
  step state (save_tool id name info) = save_tool_truncation state id name info
  step state (get_tool id) = (get_tool_truncation state id).0
  step state (save_content content) = save_content_truncation short_hash state content
  step state (get_content content) = (get_content_truncation short_hash state content).0

  unfoldable pub after : List Operation → TruncationState
  unfolding step
  after [] = new
  after (operation ∷ earlier) = step (after earlier) operation

  -- The same for the content with a hash.
  unfoldable pub pending_content : String → List Operation → Option ContentTruncationEntry
  unfolding content_hash
  pending_content hash [] = none
  pending_content hash (save_tool id name info ∷ earlier) = pending_content hash earlier
  pending_content hash (get_tool id ∷ earlier) = pending_content hash earlier
  pending_content hash (save_content content ∷ earlier) =
      let rest = pending_content hash earlier in
      if content_hash short_hash content == hash
      then some (record { content_hash = content_hash short_hash content })
      else rest
  pending_content hash (get_content content ∷ earlier) =
      let rest = pending_content hash earlier in
      if content_hash short_hash content == hash then none else rest

  tool_cache-after :
      (history : List Operation) (id : String)
      → lookup id (after history).tool_cache ≡ pending_tool id history
  unfolding after step pending_tool save_tool_truncation get_tool_truncation save_content_truncation
      get_content_truncation lookup
  tool_cache-after [] id = refl
  tool_cache-after (save_tool saved name info ∷ earlier) id =
      rw
        (
          lookup-insert saved id (record { tool_name = name; info = info })
              (after earlier).tool_cache,
          tool_cache-after earlier id,
        )
        refl
  tool_cache-after (get_tool taken ∷ earlier) id =
      rw (lookup-remove taken id (after earlier).tool_cache, tool_cache-after earlier id) refl
  tool_cache-after (save_content content ∷ earlier) id = tool_cache-after earlier id
  tool_cache-after (get_content content ∷ earlier) id = tool_cache-after earlier id

  content_cache-after :
      (history : List Operation) (hash : String)
      → lookup hash (after history).content_cache ≡ pending_content hash history
  unfolding after step pending_content save_tool_truncation get_tool_truncation
      save_content_truncation get_content_truncation lookup
  content_cache-after [] hash = refl
  content_cache-after (save_tool id name info ∷ earlier) hash = content_cache-after earlier hash
  content_cache-after (get_tool id ∷ earlier) hash = content_cache-after earlier hash
  content_cache-after (save_content content ∷ earlier) hash =
      let key = content_hash short_hash content in
      rw
        (
          lookup-insert key hash (record { content_hash = key }) (after earlier).content_cache,
          content_cache-after earlier hash,
        )
        refl
  content_cache-after (get_content content ∷ earlier) hash =
      rw
        (
          lookup-remove (content_hash short_hash content) hash (after earlier).content_cache,
          content_cache-after earlier hash,
        )
        refl

  -- After any history of saves and retrievals, a retrieval answers what was saved last for its tool
  -- call, or for a content with its hash, and was not handed out since; else it answers nothing.
  pub retrieved_once :
      (history : List Operation) (id content : String)
      → ((get_tool_truncation (after history) id).1 ≡ pending_tool id history)
        × ((get_content_truncation short_hash (after history) content).1
            ≡ pending_content (content_hash short_hash content) history)
  unfolding get_tool_truncation get_content_truncation
  retrieved_once history id content =
      (tool_cache-after history id, content_cache-after history (content_hash short_hash content))

-- ===== src/Lib.antt =====
-- A verification library for Harbangan, an AI gateway: backend/src/ takes chat requests in the formats of
-- OpenAI and Anthropic, routes each to a provider and an account, and streams the answer back.
--
-- Files and what they model:
-- - Providers/Id: backend/src/providers/types.rs, the providers' names and their parsing.
-- - Providers/RateLimit: backend/src/providers/rate_limiter.rs. `RateLimitTracker` is the record of
--   the accounts' states and the round-robin counter; `update_from_headers`, `mark_limited`, `best_account`,
--   `best_account_with_priority`, `cleanup_stale` and `get_all_states` are the methods of those names.
--   Each takes the time that it would read as an argument. Select holds the choice, Optimal, Tiers,
--   Cooldown and Rotation what is proved of it.
-- - Providers/Registry: backend/src/providers/registry.rs. `ProviderRegistry` is the record of the cache,
--   the proxy credentials and the disabled providers; Resolve holds `resolve_provider` and Balancing
--   `resolve_provider_with_balancing`, which calls the tracker and, without a candidate, `resolve_provider`.
--   Valid and Enabled keep the registry's invariant, Balanced is about the balanced route.
-- - Providers/TokenManager: backend/src/proxy_token_manager.rs, the token file of the proxy mode, whose live
--   credentials are the registry's proxy credentials. Credentials and Refresh are about it.
-- - ThinkingParser: backend/src/thinking_parser.rs, the state machine that splits a stream into thinking
--   and regular content. Search and Closing hold the lemmas, Feeding feeds one chunk and
--   Whole reads a whole stream.
-- - Converters/Messages: backend/src/converters/core.rs, the messages that the formats share, with
--   `strip_all_tool_content`, `ensure_assistant_before_tool_results` and `merge_adjacent_messages`;
--   `normalize_messages` composes them as backend/src/converters/openai_to_kiro.rs does. Merged, Paired and
--   Stripped are about the three steps and their composition.
-- - Converters/History: the same two files, the history of a Kiro request and its end. An entry is a record.
-- - Converters/Schema, Converters/Tools and Converters/Choice: backend/src/converters/core.rs,
--   `sanitize_json_schema`, the tools of a request and the maps of its tool_choice, response_format and
--   reasoning_effort. Clean, Accepted and RoundTrip are about them.
-- - Truncation: backend/src/truncation.rs, the cache of truncated calls and contents; Inject holds the notices
--   in the messages of an OpenAI request and Anthropic those of an Anthropic request, and Diagnosis the
--   diagnosis of cut JSON. Once, Woven and Counted are about the three. SHA-256 is a parameter.
-- - Streaming: backend/src/streaming/. Sse is `parse_sse_stream` of sse.rs. The others are parts of mod.rs:
--   Extract is `SseParser`, Accumulator `ToolCallAccumulator`, Dedup `deduplicate_tool_calls`, Events
--   `parse_kiro_event_with_accumulator`, and Kiro `parse_kiro_stream`, which runs them and the thinking parser
--   over the chunks of an answer; Spoken reads the JSON values one by one. The JSON parser and printer, and the reading of a JSON number as an i64 or
--   as a thousandfold i32, are parameters. CrossFormat is cross_format.rs: ToAnthropic and ToOpenai are its two
--   translators, Blocks and Whole say what a reader of the events may expect, RoundTrip composes the two.
-- - Guardrails: backend/src/guardrails/, the engine's `validate` with the profiles' answers of Bedrock. Aggregate,
--   Redacted and Sampling are about it. The CEL evaluator, the requests and the random bytes are parameters.
-- - Login: backend/src/web_ui/password_auth.rs, the limit on failed logins and `login_handler` up to the
--   verified password. The password check and the user query are parameters.
-- - Base: Booleans, lists, maps, sets, 64-bit words, integers, texts and UTF-8 that the others share.
--
-- Conventions. A HashMap or DashMap is an association list without repeated keys, and one call of an
-- operation is one step: no interleaving inside an operation is modelled, so logins are tried one after
-- another, although the source awaits the password check between the limit and the count. Times are nanoseconds on ℕ, and
-- one reading of a clock serves a whole operation. The database is a record of the answers to the
-- queries, `none` for an error or no row. A panic is `none`. A text is a native String, or in
-- the parser and the diagnosis a list of code points with positions in UTF-8 bytes. Every loop is
-- structural recursion, but for three on fuel: the printing of a counter takes eleven steps for at most ten
-- digits, and the loops over the lines and the events of a buffer take one more than its length.
-- A u64 keeps its wrap-around and its saturation.
--
-- Not modelled: `ensure_fresh_token` and `from_proxy_config` of the registry, the other converters, the
-- translation of streams into other formats, the pipeline, and everything that only does
-- input and output (HTTP clients, SQL, handlers, telemetry).
pub mod Base
pub mod Converters
pub mod Guardrails
pub mod Login
pub mod Providers
pub mod Streaming
pub mod ThinkingParser
pub mod Truncation

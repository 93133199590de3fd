-- ===== src/Streaming.antt =====
-- The streams that come from the providers.
pub mod Sse
pub mod Accumulator
pub mod Dedup
pub mod Extract
pub mod Events
pub mod Kiro
pub mod CrossFormat

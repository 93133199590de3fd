-- ===== src/Converters.antt =====
-- Conversion of chat messages to the providers' formats.
pub mod Messages
pub mod History
pub mod Schema
pub mod Tools
pub mod Choice

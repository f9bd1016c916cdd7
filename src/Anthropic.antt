-- ===== src/Anthropic.antt =====
-- llm/anthropic/anthropic.go: the adapter of the Messages API. The values and events of the vendor's
-- SDK are data types with the fields that the adapter reads or writes.
pub mod Stream
pub mod Messages
pub mod Schema
pub mod Params
mod Tests

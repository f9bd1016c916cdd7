-- ===== src/Bedrock.antt =====
-- llm/bedrock/bedrock.go: the adapter of the Converse API. The values and events of the AWS SDK are
-- data types with the fields that the adapter reads or writes; a pointer that can be nil is an Option.
pub mod Stream
pub mod Request
pub mod Input
mod Tests

-- ===== src/Vertex.antt =====
-- llm/vertex/vertex.go: the adapter of Gemini on Vertex. The values of the vendor's SDK are data types
-- with the fields that the adapter reads.
pub mod Stream
pub mod Parts
pub mod Request
mod Tests

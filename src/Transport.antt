-- ===== src/Transport.antt =====
-- llm/neterr.go, llm/connstate.go, and the request loops of llm/openai.go with their `Retry-After`.
pub mod Errors
pub mod Tracker
pub mod Probe
pub mod RetryAfter
pub mod Request
pub mod StatusRetry
mod Tests

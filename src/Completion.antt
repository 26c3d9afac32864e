-- ===== src/Completion.antt =====
-- internal/gateway/completion_requirements.go, completion_stream_contract.go and
-- response_completion.go: what a streamed
-- response must show before it counts as complete.
pub mod Outcome
pub mod Contract
pub mod Calls
pub mod Chat
pub mod Responses
pub mod Messages
pub mod Feed
mod Examples

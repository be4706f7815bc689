-- ===== src/Model.antt =====
-- src/model: the typed values of messages, and the validation context.
pub mod Identifiers
pub mod Relay
pub mod Replay
pub mod Session
pub mod NameId
pub mod Extract

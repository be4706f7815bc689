-- ===== src/Tests.antt =====
-- Concrete libraries and documents, and the theorems at them.
pub mod Documents
pub mod Xml
pub mod Crypto
pub mod Browser
pub mod Flow
pub mod Replay
pub mod Responses
pub mod Run
pub mod Extract
pub mod Profile
pub mod Input
pub mod Metadata

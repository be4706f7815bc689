-- ===== src/Crypto.antt =====
-- src/crypto: keys, and the verification of signatures.
pub mod Keys
pub mod Decrypt
pub mod Guards
pub mod Targets
pub mod Coverage
pub mod Preflight
pub mod Verify

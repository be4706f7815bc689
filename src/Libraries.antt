-- ===== src/Libraries.antt =====
-- The code that risaml calls and does not contain, each crate as a record of functions that the
-- definitions take as a parameter. A law that a theorem relies on is a hypothesis of that theorem.
pub mod Time
pub mod Web
pub mod Xml
pub mod Unicode
pub mod Crypto

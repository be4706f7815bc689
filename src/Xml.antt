-- ===== src/Xml.antt =====
-- src/xml: the reader of documents, the extraction of fields, and the protocol profile.
pub mod Dom
pub mod Extract
pub mod Fields
pub mod DateTime
pub mod Profile

-- ===== src/Metadata.antt =====
-- src/metadata: what is read from a metadata document.
pub mod Policy

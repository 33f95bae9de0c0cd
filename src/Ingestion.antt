-- ===== src/Ingestion.antt =====
-- src/ragplan/ingestion: from the text of a document to its chunks, and from the staged stores to the
-- corpus that is served.
pub mod Normalize
pub mod Chunker
pub mod Manifest
pub mod Reconcile

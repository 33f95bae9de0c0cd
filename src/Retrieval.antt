-- ===== src/Retrieval.antt =====
pub mod Hits
pub mod Fusion
pub mod Provenance

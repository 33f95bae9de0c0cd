-- ===== src/Engine.antt =====
-- src/ragplan/core/engine.py: `BaselineSearchEngine`, which serves a request over both stores.
pub mod Requests
pub mod Plans
pub mod Gate
pub mod Traces
pub mod Boundaries
pub mod Execute
pub mod Serve

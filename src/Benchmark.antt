-- ===== src/Benchmark.antt =====
-- src/ragplan/benchmark: the measures of a ranking.
pub mod Metrics

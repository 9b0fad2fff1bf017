-- ===== src/Benchmark.antt =====
-- src/benchmark.cpp: the benchmark loop, its statistics and its JSON report.
pub mod Escape
pub mod Statistics
pub mod Validation
pub mod Run
pub mod Report
pub mod Summary

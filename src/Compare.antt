-- ===== src/Compare.antt =====
-- tools/metrics_compare.cpp: the regression gate between two metrics files.
pub mod Reader
pub mod Metrics
pub mod Gate

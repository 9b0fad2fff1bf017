-- ===== src/Exporter.antt =====
-- tools/metrics_exporter.cpp: the Prometheus exporter of a metrics file.
pub mod Scan
pub mod Values
pub mod Snapshots
pub mod Labels
pub mod Render
pub mod Scrape
pub mod Http
pub mod Server
pub mod Program

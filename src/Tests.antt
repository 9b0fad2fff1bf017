-- ===== src/Tests.antt =====
-- Examples: the theorems at concrete documents, requests, command lines and runs.
pub mod Numbers
pub mod Devices
pub mod Documents
pub mod ExporterRuns
pub mod ExporterStatus
pub mod ComparatorRuns
pub mod RunnerRuns
pub mod RunnerStatus
pub mod TensorrtRuns
pub mod BuilderRuns

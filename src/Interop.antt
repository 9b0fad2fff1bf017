-- ===== src/Interop.antt =====
-- The writer of the metrics JSON against its two readers.
mod Views
pub mod ComparatorStrings
pub mod ExporterStrings
pub mod ExporterObjects
pub mod DeviceTimes

-- ===== src/Batch.antt =====
-- pkg/batch: updates of vehicles gathered into batches.
pub mod Update
pub mod Config
pub mod Convert
pub mod Split
pub mod Processor

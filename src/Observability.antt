-- ===== src/Observability.antt =====
-- The signal pipeline of projects/08-observability-pipeline.
pub mod Signal
pub mod Batcher
pub mod Sampler
pub mod Filter
pub mod Flow
mod Tests

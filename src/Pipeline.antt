-- ===== src/Pipeline.antt =====
-- crates/ciel-pipeline.
pub mod Float
pub mod Score
pub mod Verdict
pub mod Capture
pub mod Log

-- ===== src/Checkers/Intent.antt =====
-- crates/ciel-checkers/src/intent_diff.rs and intent_rules.rs.
pub mod Word
pub mod Rules
pub mod Verify
pub mod Check
pub mod Tolerance
pub mod Outcome
pub mod Bounds

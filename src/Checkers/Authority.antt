-- ===== src/Checkers/Authority.antt =====
-- crates/ciel-checkers/src/authority_diff.rs.
pub mod Severity
pub mod Keywords
pub mod Match
pub mod Check
pub mod Laws
pub mod Refine
pub mod Handoff
pub mod Passed

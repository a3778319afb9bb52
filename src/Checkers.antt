-- ===== src/Checkers.antt =====
-- crates/ciel-checkers.
pub mod Json
pub mod Types
pub mod Oracle
pub mod Registry
pub mod Results
pub mod Hash
pub mod Approval
pub mod Authority
pub mod Intent
pub mod Stubs

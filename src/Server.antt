-- ===== src/Server.antt =====
-- crates/ciel-server: the answers of its errors, its start, its metrics, and its two interfaces.
pub mod Error
pub mod Startup
pub mod Metrics
pub mod Rest
pub mod Grpc
pub mod Agree

-- ===== src/Fork.antt =====
-- crates/ciel-fork.
pub mod Cache
pub mod Staleness
pub mod Account
pub mod Executor
pub mod Error
pub mod Breaker
pub mod Rpc
pub mod Geyser
pub mod Simulator

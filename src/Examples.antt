-- ===== src/Examples.antt =====
-- The theorems at concrete inputs.
pub mod Data
mod Accounts
mod Trace
mod Amounts
mod Wire
pub mod Calls
mod Names
mod Handoff
mod Rpc
mod Feeds
pub mod Envelope
mod Server
mod Drift

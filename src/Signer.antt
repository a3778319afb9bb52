-- ===== src/Signer.antt =====
-- crates/ciel-signer.
pub mod Attestation
pub mod Borsh
pub mod LittleEndian
pub mod Wire
pub mod Keys
pub mod Json
pub mod Pea

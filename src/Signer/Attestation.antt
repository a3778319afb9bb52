-- ===== src/Signer/Attestation.antt =====
-- crates/ciel-signer/src/attestation.rs. A byte array is the list of its bytes, and a number of w
-- bits a natural number below 2^w.
use ciel_sol.Base.{ℕ, ◌+◌, ◌%◌, ◌^◌, Bool, false, List, [], ◌∷◌}
use ciel_sol.Base.Int.{ℤ}

abbrev pub Bytes : Type 0
Bytes = List ℕ

abbrev pub ciel_attestation_magic : Bytes
ciel_attestation_magic = 0x43 ∷ 0x49 ∷ 0x45 ∷ 0x4c ∷ []

abbrev pub policy_attestation_magic : Bytes
policy_attestation_magic = 0x43 ∷ 0x49 ∷ 0x4c ∷ 0x50 ∷ []

abbrev pub override_attestation_magic : Bytes
override_attestation_magic = 0x43 ∷ 0x4c ∷ 0x4f ∷ 0x56 ∷ []

abbrev pub attestation_version : ℕ
attestation_version = 1

abbrev pub timeout_sentinel : ℕ
timeout_sentinel = 0xffff

abbrev pub expiry_slots : ℕ
expiry_slots = 2

pub data Verdict : Type 0 where
  approve warn block timeout : Verdict

-- `verdict as u8`
abbrev pub verdict_u8 : Verdict → ℕ
verdict_u8 approve = 0
verdict_u8 warn = 1
verdict_u8 block = 2
verdict_u8 timeout = 3

pub record CielAttestation : Type 0 where
  pub magic : Bytes
  pub version : ℕ
  pub tx_hash : Bytes
  pub verdict : ℕ
  pub safety_score : ℕ
  pub optimality_score : ℕ
  pub checker_outputs_hash : Bytes
  pub slot : ℕ
  pub expiry_slot : ℕ
  pub signer : Bytes
  pub timestamp : ℤ
  pub timeout_at_ms : ℕ

-- `slot + EXPIRY_SLOTS` on u64, as a release build computes it.
unfoldable pub new : Bytes → Verdict → ℕ → ℕ → Bytes → ℕ → Bytes → ℤ → ℕ → CielAttestation
new tx_hash verdict safety optimality outputs_hash slot signer timestamp timeout_at_ms = record {
  magic = ciel_attestation_magic;
  version = attestation_version;
  tx_hash = tx_hash;
  verdict = verdict_u8 verdict;
  safety_score = safety;
  optimality_score = optimality;
  checker_outputs_hash = outputs_hash;
  slot = slot;
  expiry_slot = (slot + expiry_slots) % 2 ^ 64;
  signer = signer;
  timestamp = timestamp;
  timeout_at_ms = timeout_at_ms;
}

unfoldable pub new_timeout : Bytes → Bytes → ℕ → Bytes → ℤ → ℕ → CielAttestation
unfolding new
new_timeout tx_hash outputs_hash slot signer timestamp timeout_at_ms =
    new tx_hash timeout timeout_sentinel timeout_sentinel outputs_hash slot signer timestamp
      timeout_at_ms

pub record PolicyAttestation : Type 0 where
  pub magic : Bytes
  pub version : ℕ
  pub policy_hash : Bytes
  pub signer : Bytes
  pub issued_slot : ℕ
  pub expires_at : ℤ
  pub revoked : Bool

unfoldable pub new_policy : Bytes → Bytes → ℕ → ℤ → PolicyAttestation
new_policy policy_hash signer issued_slot expires_at = record {
  magic = policy_attestation_magic;
  version = attestation_version;
  policy_hash = policy_hash;
  signer = signer;
  issued_slot = issued_slot;
  expires_at = expires_at;
  revoked = false;
}

pub record OverrideAttestation : Type 0 where
  pub magic : Bytes
  pub version : ℕ
  pub original_attestation_hash : Bytes
  pub override_type : ℕ
  pub overrider : Bytes
  pub slot : ℕ
  pub timestamp : ℤ

unfoldable pub new_override : Bytes → ℕ → Bytes → ℕ → ℤ → OverrideAttestation
new_override original override_type overrider slot timestamp = record {
  magic = override_attestation_magic;
  version = attestation_version;
  original_attestation_hash = original;
  override_type = override_type;
  overrider = overrider;
  slot = slot;
  timestamp = timestamp;
}

-- ===== src/Signer/Wire.antt =====
-- crates/ciel-signer/src/attestation.rs: what `derive(BorshSerialize, BorshDeserialize)` makes of
-- the three structs, each the sequence of its fields in the order of their declaration.
pub mod Layout
use ciel_sol.Base.{
  ℕ, ◌+◌, ◌≤◌, ◌<◌, ◌≡◌, refl, Bool, Option, none, some, List, [], ◌∷◌, ◌++◌, length, All, arith,
  take, take-append_length,
}
use ciel_sol.Base.Int.{ℤ}
use ciel_sol.Signer.Attestation.{Bytes, CielAttestation, PolicyAttestation, OverrideAttestation}
use ciel_sol.Signer.Borsh.{
  Codec, IsCodec, seq, seq-IsCodec, through, through-IsCodec, BorshLib, IsBorsh, IsByte,
}

abbrev pub CielFields : Type 0
CielFields = Bytes × (ℕ × (Bytes × (ℕ × (ℕ × (ℕ × (Bytes × (ℕ × (ℕ × (Bytes × (ℤ × ℕ))))))))))

abbrev ciel_fields : CielAttestation → CielFields
ciel_fields a = (
  a.magic,
  (
    a.version,
    (
      a.tx_hash,
      (
        a.verdict,
        (
          a.safety_score,
          (
            a.optimality_score,
            (
              a.checker_outputs_hash,
              (a.slot, (a.expiry_slot, (a.signer, (a.timestamp, a.timeout_at_ms)))),
            ),
          ),
        ),
      ),
    ),
  ),
)

abbrev ciel_of : CielFields → CielAttestation
ciel_of
      (
        magic,
        (
          version,
          (
            tx_hash,
            (
              verdict,
              (
                safety,
                (optimality, (outputs, (slot, (expiry, (signer, (timestamp, timeout_at)))))),
              ),
            ),
          ),
        ),
      ) =
    record {
      magic = magic;
      version = version;
      tx_hash = tx_hash;
      verdict = verdict;
      safety_score = safety;
      optimality_score = optimality;
      checker_outputs_hash = outputs;
      slot = slot;
      expiry_slot = expiry;
      signer = signer;
      timestamp = timestamp;
      timeout_at_ms = timeout_at;
    }

unfoldable pub ciel_codec : BorshLib → Codec CielAttestation
ciel_codec lib = through ciel_fields ciel_of (
    seq (lib.array 4) (
      seq lib.u8 (
        seq (lib.array 32) (
          seq lib.u8 (
            seq lib.u16 (
              seq lib.u16 (
                seq (lib.array 32)
                  (seq lib.u64 (seq lib.u64 (seq (lib.array 32) (seq lib.i64 lib.u16)))))))))))

abbrev PolicyFields : Type 0
PolicyFields = Bytes × (ℕ × (Bytes × (Bytes × (ℕ × (ℤ × Bool)))))

abbrev policy_fields : PolicyAttestation → PolicyFields
policy_fields a =
    (a.magic, (a.version, (a.policy_hash, (a.signer, (a.issued_slot, (a.expires_at, a.revoked))))))

abbrev policy_of : PolicyFields → PolicyAttestation
policy_of (magic, (version, (policy_hash, (signer, (issued, (expires, revoked)))))) = record {
  magic = magic;
  version = version;
  policy_hash = policy_hash;
  signer = signer;
  issued_slot = issued;
  expires_at = expires;
  revoked = revoked;
}

unfoldable pub policy_codec : BorshLib → Codec PolicyAttestation
policy_codec lib = through policy_fields policy_of (
    seq (lib.array 4)
      (seq lib.u8 (seq (lib.array 32) (seq (lib.array 32) (seq lib.u64 (seq lib.i64 lib.bool))))))

abbrev OverrideFields : Type 0
OverrideFields = Bytes × (ℕ × (Bytes × (ℕ × (Bytes × (ℕ × ℤ)))))

abbrev override_fields : OverrideAttestation → OverrideFields
override_fields a = (
  a.magic,
  (
    a.version,
    (a.original_attestation_hash, (a.override_type, (a.overrider, (a.slot, a.timestamp)))),
  ),
)

abbrev override_of : OverrideFields → OverrideAttestation
override_of (magic, (version, (original, (override_type, (overrider, (slot, timestamp)))))) =
    record {
      magic = magic;
      version = version;
      original_attestation_hash = original;
      override_type = override_type;
      overrider = overrider;
      slot = slot;
      timestamp = timestamp;
    }

unfoldable pub override_codec : BorshLib → Codec OverrideAttestation
override_codec lib = through override_fields override_of (
    seq (lib.array 4)
      (seq lib.u8 (seq (lib.array 32) (seq lib.u8 (seq (lib.array 32) (seq lib.u64 lib.i64))))))

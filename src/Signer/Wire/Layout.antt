-- ===== src/Signer/Wire/Layout.antt =====
-- The layout of the three attestations on the wire.
use ciel_sol.Base.{◌≡◌, refl, some, ◌++◌, length, All}
use ciel_sol.Signer.Attestation.{Bytes, CielAttestation, PolicyAttestation, OverrideAttestation}
use ciel_sol.Signer.Borsh.{
  IsCodec, seq-IsCodec, through-IsCodec, BorshLib, IsBorsh, IsByte, InWord, InI64, IsArray,
}
use ciel_sol.Signer.Wire.{ciel_codec, policy_codec, override_codec}

-- The values that Rust's field types admit.
abbrev pub IsCiel : CielAttestation → Type 0
IsCiel a =
    IsArray 4 a.magic
    × (InWord 256 a.version
        × (IsArray 32 a.tx_hash
            × (InWord 256 a.verdict
                × (InWord 65536 a.safety_score
                    × (InWord 65536 a.optimality_score
                        × (IsArray 32 a.checker_outputs_hash
                            × (InWord 18446744073709551616 a.slot
                                × (InWord 18446744073709551616 a.expiry_slot
                                    × (IsArray 32 a.signer
                                        × (InI64 a.timestamp
                                            × InWord 65536 a.timeout_at_ms))))))))))

abbrev pub IsPolicy : PolicyAttestation → Type 0
IsPolicy a =
    IsArray 4 a.magic
    × (InWord 256 a.version
        × (IsArray 32 a.policy_hash
            × (IsArray 32 a.signer
                × (InWord 18446744073709551616 a.issued_slot × (InI64 a.expires_at × Unit {0})))))

abbrev pub IsOverride : OverrideAttestation → Type 0
IsOverride a =
    IsArray 4 a.magic
    × (InWord 256 a.version
        × (IsArray 32 a.original_attestation_hash
            × (InWord 256 a.override_type
                × (IsArray 32 a.overrider
                    × (InWord 18446744073709551616 a.slot × InI64 a.timestamp)))))

module _ (lib : BorshLib) (h : IsBorsh lib) where
  ciel_codec-IsCodec : IsCodec IsCiel 132 (ciel_codec lib)
  unfolding ciel_codec
  ciel_codec-IsCodec =
      through-IsCodec _ _ (λ b. refl) (λ a. refl)
        (seq-IsCodec (h.array_codec 4) (
          seq-IsCodec h.u8_codec (
            seq-IsCodec (h.array_codec 32) (
              seq-IsCodec h.u8_codec (
                seq-IsCodec h.u16_codec (
                  seq-IsCodec h.u16_codec (
                    seq-IsCodec (h.array_codec 32) (
                      seq-IsCodec h.u64_codec (
                        seq-IsCodec h.u64_codec (
                          seq-IsCodec (h.array_codec 32)
                            (seq-IsCodec h.i64_codec h.u16_codec)))))))))))

  IsPolicy-IsOverride-IsCodec :
      IsCodec IsPolicy 86 (policy_codec lib) × IsCodec IsOverride 86 (override_codec lib)
  unfolding policy_codec override_codec
  IsPolicy-IsOverride-IsCodec = (
    through-IsCodec _ _ (λ b. refl) (λ a. refl)
        (seq-IsCodec (h.array_codec 4) (
          seq-IsCodec h.u8_codec (
            seq-IsCodec (h.array_codec 32) (
              seq-IsCodec (h.array_codec 32)
                (seq-IsCodec h.u64_codec (seq-IsCodec h.i64_codec h.bool_codec)))))),
    through-IsCodec _ _ (λ b. refl) (λ a. refl)
        (seq-IsCodec (h.array_codec 4) (
          seq-IsCodec h.u8_codec (
            seq-IsCodec (h.array_codec 32) (
              seq-IsCodec h.u8_codec
                (seq-IsCodec (h.array_codec 32) (seq-IsCodec h.u64_codec h.i64_codec)))))),
  )

  -- Under the Borsh specification, a CielAttestation takes 132 bytes and is read back from them,
  -- whatever follows.
  pub ciel_codec-roundtrip :
      (a : CielAttestation) (rest : Bytes)
      → IsCiel a
      → (length ((ciel_codec lib).encode a) ≡ 132)
        × ((ciel_codec lib).decode ((ciel_codec lib).encode a ++ rest) ≡ some (a, rest))
  ciel_codec-roundtrip a rest ha =
      (ciel_codec-IsCodec.width_eq a ha, ciel_codec-IsCodec.read_back a rest ha)

  -- Under the Borsh specification, bytes that decode to a CielAttestation are its own encoding and
  -- the bytes left over, so an attestation has one encoding; and its fields are within their types.
  pub ciel_codec-canonical :
      (a : CielAttestation) (bytes rest : Bytes)
      → All IsByte bytes
      → (ciel_codec lib).decode bytes ≡ some (a, rest)
      → ((ciel_codec lib).encode a ++ rest ≡ bytes) × IsCiel a
  ciel_codec-canonical a bytes rest hb e =
      let c = ciel_codec-IsCodec.canonical a bytes rest hb e in (c.0, c.1)

  -- Under the Borsh specification, a PolicyAttestation and an OverrideAttestation take 86 bytes
  -- each and are read back from them, whatever follows.
  pub policy_override-roundtrip :
      (p : PolicyAttestation) (o : OverrideAttestation) (rest : Bytes)
      → IsPolicy p
      → IsOverride o
      → (length ((policy_codec lib).encode p) ≡ 86)
        × ((policy_codec lib).decode ((policy_codec lib).encode p ++ rest) ≡ some (p, rest))
        × (length ((override_codec lib).encode o) ≡ 86)
        × ((override_codec lib).decode ((override_codec lib).encode o ++ rest) ≡ some (o, rest))
  policy_override-roundtrip p o rest hp ho = (
    IsPolicy-IsOverride-IsCodec.0.width_eq p hp,
    IsPolicy-IsOverride-IsCodec.0.read_back p rest hp,
    IsPolicy-IsOverride-IsCodec.1.width_eq o ho,
    IsPolicy-IsOverride-IsCodec.1.read_back o rest ho,
  )

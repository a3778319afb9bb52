-- ===== src/Examples/Wire.antt =====
-- The attestations on the wire, and their signatures.
pub mod Keys
use ciel_sol.Base.{
  ℕ, ◌<◌, ◌≡◌, refl, Bool, true, false, Option, none, some, List, [], ◌∷◌, ◌++◌, length, All, arith,
  replicate,
}
use ciel_sol.Base.Int.{ℤ, pos, negsuc}
use ciel_sol.Signer.Attestation.{
  Bytes, block, CielAttestation, PolicyAttestation, OverrideAttestation, new, new_policy,
  new_override, ciel_attestation_magic,
}
use ciel_sol.Signer.Borsh.{Codec, seq, through, IsByte}
use ciel_sol.Signer.Wire.{ciel_codec, policy_codec, override_codec}
use ciel_sol.Signer.Wire.Layout.{
  IsCiel, IsPolicy, IsOverride, ciel_codec-roundtrip, ciel_codec-canonical,
  policy_override-roundtrip,
}
use ciel_sol.Signer.LittleEndian.{borsh, borsh-IsBorsh, le, le_encode, i64}
use ciel_sol.Signer.Keys.{
  verify_attestation, pubkey_bytes, sign_attestation, sign_policy_attestation,
  sign_override_attestation, sign-verifies,
}
use ciel_sol.Examples.Wire.Keys.{ed25519, ed25519-IsEd25519, signer}

abbrev pub attestation : CielAttestation
attestation =
    new (replicate 32 17) block 3500 0 (replicate 32 33) 350000000 (replicate 32 65)
      (pos 1712000000) 0

pub attestation-IsCiel : IsCiel attestation
unfolding new
attestation-IsCiel = omega arith

ciel_codec-roundtrip_example :
    (length ((ciel_codec borsh).encode attestation) ≡ 132)
    × ((ciel_codec borsh).decode ((ciel_codec borsh).encode attestation ++ 9 ∷ [])
        ≡ some (attestation, 9 ∷ []))
ciel_codec-roundtrip_example =
    ciel_codec-roundtrip borsh borsh-IsBorsh attestation (9 ∷ []) attestation-IsCiel

encoded_bytes : All IsByte ((ciel_codec borsh).encode attestation ++ 9 ∷ [])
unfolding new ciel_codec seq through le le_encode i64
encoded_bytes = omega arith

ciel_codec-canonical_example :
    ((ciel_codec borsh).encode attestation ++ 9 ∷ []
      ≡ (ciel_codec borsh).encode attestation ++ 9 ∷ [])
    × IsCiel attestation
ciel_codec-canonical_example =
    ciel_codec-canonical borsh borsh-IsBorsh attestation
      ((ciel_codec borsh).encode attestation ++ 9 ∷ []) (9 ∷ []) encoded_bytes
      ciel_codec-roundtrip_example.1

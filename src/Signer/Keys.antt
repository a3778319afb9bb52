-- ===== src/Signer/Keys.antt =====
-- crates/ciel-signer/src/signer.rs. The Ed25519 primitives are ed25519-dalek's, a parameter; a
-- signing key is its 32-byte seed.
use ciel_sol.Base.{Bool, true, false, Option, none, some, ◌≡◌, if◌then◌else◌}
use ciel_sol.Signer.Attestation.{Bytes, CielAttestation, PolicyAttestation, OverrideAttestation}
use ciel_sol.Signer.Borsh.{BorshLib}
use ciel_sol.Signer.Wire.{ciel_codec, policy_codec, override_codec}

pub record Ed25519 : Type 0 where
  pub verifying_key : Bytes → Bytes
  pub sign : Bytes → Bytes → Bytes
  pub is_verifying_key : Bytes → Bool  -- `VerifyingKey::from_bytes` succeeds
  pub verify_strict : Bytes → Bytes → Bytes → Bool
  pub from_keypair_bytes : Bytes → Option Bytes

-- A signature verifies under the key's own public half, which is a valid key.
pub record IsEd25519 (lib : Ed25519) : Type 0 where
  pub key_valid : (seed : Bytes) → lib.is_verifying_key (lib.verifying_key seed) ≡ true
  pub signed_verifies :
      (seed message : Bytes)
      → lib.verify_strict (lib.verifying_key seed) message (lib.sign seed message) ≡ true

pub record CielSigner : Type 0 where
  pub signing_key : Bytes

unfoldable pub new : Bytes → CielSigner
new key = record { signing_key = key }

unfoldable pub from_bytes : Bytes → CielSigner
from_bytes secret = record { signing_key = secret }

abbrev of_key : Option Bytes → Option CielSigner
of_key none = none
of_key (some key) = some (record { signing_key = key })

unfoldable pub from_keypair_bytes : Ed25519 → Bytes → Option CielSigner
from_keypair_bytes lib bytes = of_key (lib.from_keypair_bytes bytes)

unfoldable pub pubkey_bytes : Ed25519 → CielSigner → Bytes
pubkey_bytes lib s = lib.verifying_key s.signing_key

-- Borsh into a vector always succeeds on these structs, so there is no error to return.
unfoldable pub sign_attestation : Ed25519 → BorshLib → CielSigner → CielAttestation → Bytes × Bytes
sign_attestation lib borsh s a =
    let bytes = (ciel_codec borsh).encode a in (bytes, lib.sign s.signing_key bytes)

unfoldable pub sign_policy_attestation :
    Ed25519 → BorshLib → CielSigner → PolicyAttestation → Bytes × Bytes
sign_policy_attestation lib borsh s a =
    let bytes = (policy_codec borsh).encode a in (bytes, lib.sign s.signing_key bytes)

unfoldable pub sign_override_attestation :
    Ed25519 → BorshLib → CielSigner → OverrideAttestation → Bytes × Bytes
sign_override_attestation lib borsh s a =
    let bytes = (override_codec borsh).encode a in (bytes, lib.sign s.signing_key bytes)

unfoldable pub verify_attestation : Ed25519 → Bytes → Bytes → Bytes → Bool
verify_attestation lib pubkey message signature =
    if lib.is_verifying_key pubkey then lib.verify_strict pubkey message signature else false

pub sign_attestation-verifies :
    (lib : Ed25519) (h : IsEd25519 lib) (borsh : BorshLib) (s : CielSigner) (a : CielAttestation)
    → verify_attestation lib
        (pubkey_bytes lib s)
        (sign_attestation lib borsh s a).0
        (sign_attestation lib borsh s a).1
      ≡ true
unfolding verify_attestation pubkey_bytes sign_attestation
sign_attestation-verifies lib h borsh s a = rw (h.key_valid s.signing_key) (h.signed_verifies _ _)

-- What any of the three signing methods signs, `verify_attestation` accepts under the signer's own
-- public key.
pub sign-verifies :
    (lib : Ed25519) (h : IsEd25519 lib) (borsh : BorshLib) (s : CielSigner) (a : CielAttestation)
    (p : PolicyAttestation) (o : OverrideAttestation)
    → (verify_attestation lib
          (pubkey_bytes lib s)
          (sign_attestation lib borsh s a).0
          (sign_attestation lib borsh s a).1
        ≡ true)
      × (verify_attestation lib
            (pubkey_bytes lib s)
            (sign_policy_attestation lib borsh s p).0
            (sign_policy_attestation lib borsh s p).1
          ≡ true)
      × (verify_attestation lib
            (pubkey_bytes lib s)
            (sign_override_attestation lib borsh s o).0
            (sign_override_attestation lib borsh s o).1
          ≡ true)
unfolding verify_attestation pubkey_bytes sign_attestation sign_policy_attestation
    sign_override_attestation
sign-verifies lib h borsh s a p o =
    rw (h.key_valid s.signing_key)
      (h.signed_verifies _ _, h.signed_verifies _ _, h.signed_verifies _ _)

-- ===== src/Examples/Wire/Keys.antt =====
-- A signature scheme in which a signature is the seed and the message.
use ciel_sol.Base.{
  ◌≡◌, refl, Bool, true, false, some, [], ◌∷◌, ◌++◌, ◌==◌, if◌then◌else◌, arith, replicate,
}
use ciel_sol.Signer.Attestation.{Bytes}
use ciel_sol.Signer.Keys.{Ed25519, IsEd25519, CielSigner}

abbrev same_bytes : Bytes → Bytes → Bool
same_bytes [] [] = true
same_bytes (a ∷ xs) (b ∷ ys) = if a == b then same_bytes xs ys else false
same_bytes _ _ = false

same_bytes_refl : (a : Bytes) → same_bytes a a ≡ true
same_bytes_refl [] = refl
same_bytes_refl (b ∷ a) = ground (arith, same_bytes_refl a)

abbrev pub ed25519 : Ed25519
ed25519 = record {
  verifying_key = λ seed. seed;
  sign = λ seed message. seed ++ message;
  is_verifying_key = λ key. true;
  verify_strict = λ key message signature. same_bytes (key ++ message) signature;
  from_keypair_bytes = λ bytes. some bytes;
}

pub ed25519-IsEd25519 : IsEd25519 ed25519
ed25519-IsEd25519 = record {
  key_valid = λ seed. refl;
  signed_verifies = λ seed message. same_bytes_refl (seed ++ message);
}

abbrev pub signer : CielSigner
signer = record { signing_key = replicate 32 42 }

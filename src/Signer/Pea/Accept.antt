-- ===== src/Signer/Pea/Accept.antt =====
-- The envelopes that the parser accepts.
use ciel_sol.Base.{==_refl, ==_iff, ◌≡◌, refl, true, some, [], ◌∷◌, String, length, inr, ◌>>=◌}
use ciel_sol.Checkers.Oracle.{same_bytes}
use ciel_sol.Signer.Attestation.{Bytes, CielAttestation}
use ciel_sol.Signer.Wire.{ciel_codec}
use ciel_sol.Signer.Json.{Value, get, as_str}
use ciel_sol.Signer.Pea.{
  PeaLib, from_pea_json, try_from_slice, pea_spec_version, pea_fixture_version,
}

same_bytes_refl : (bytes : Bytes) → same_bytes bytes bytes ≡ true
same_bytes_refl [] = refl
same_bytes_refl (b ∷ bytes) = rw (==_refl b) (same_bytes_refl bytes)

module _ (lib : PeaLib) where
  -- The wire member of an envelope, and the bytes in it.
  pub record HasWire (e : Value) (bytes : Bytes) : Type 0 where
    pub wire : Value
    pub has_wire : get e "wire" ≡ some wire
    pub fixture : (get wire "fixture_version" >>= as_str) ≡ some pea_fixture_version
    pub b64 : String
    pub has_b64 : (get wire "borsh_b64" >>= as_str) ≡ some b64
    pub decoded : lib.base64_decode b64 ≡ inr bytes
    pub width : length bytes ≡ 132

  -- Bytes that are an attestation's and nothing else.
  pub record HasAttestation (e : Value) (a : CielAttestation) : Type 0 where
    pub bytes : Bytes
    pub has_bytes : HasWire e bytes
    pub parsed : (ciel_codec lib.borsh).decode bytes ≡ some (a, [])
    pub encoded : (ciel_codec lib.borsh).encode a ≡ bytes

  pub record HasSignature (e : Value) (signature : Bytes) : Type 0 where
    pub hex : String
    pub has_hex : (get e "signature" >>= as_str) ≡ some hex
    pub decoded : lib.hex_decode hex ≡ inr signature
    pub width : length signature ≡ 64

  -- What an envelope needs for the parser to return an attestation and a signature.
  pub record IsAccepted (e : Value) (a : CielAttestation) (signature : Bytes) : Type 0 where
    pub version : (get e "spec_version" >>= as_str) ≡ some pea_spec_version
    pub attestation : HasAttestation e a
    pub signed : HasSignature e signature

  -- The parser accepts such an envelope.
  pub accepts :
      (e : Value) (a : CielAttestation) (signature : Bytes)
      → IsAccepted e a signature
      → from_pea_json lib e ≡ inr (a, signature)
  unfolding from_pea_json try_from_slice
  accepts e a signature h =
      let w = h.attestation.has_bytes in
      let bytes = h.attestation.bytes in
      rw
        (
          h.version,
          w.has_wire,
          w.fixture,
          w.has_b64,
          w.decoded,
          (==_iff (length bytes) 132).1 w.width,
          h.attestation.parsed,
          h.attestation.encoded,
          same_bytes_refl bytes,
          h.signed.has_hex,
          h.signed.decoded,
          (==_iff (length signature) 64).1 h.signed.width,
        )
        refl

-- ===== src/Signer/Pea/Parse.antt =====
-- The parser accepts no other envelope.
use ciel_sol.Base.{
  ◌≡◌, refl, true, Option, none, some, [], ◌∷◌, String, str_eq_iff, length, ◌⊎◌, inl, inr, arith,
  ap, ◌∙◌, sym, ◌>>=◌, subst, ◌↔◌,
}
use ciel_sol.Checkers.Oracle.{same_bytes}
use ciel_sol.Signer.Attestation.{Bytes, CielAttestation}
use ciel_sol.Signer.Wire.{ciel_codec}
use ciel_sol.Signer.Json.{Value, get, as_str}
use ciel_sol.Signer.Pea.{
  PeaLib, from_pea_json, try_from_slice, Error, then_do, wire_bytes, wire_attestation,
  envelope_signature, whole, ok_or, prefixed, text_at, expect_text, pea_spec_version,
  pea_fixture_version, expect_roundtrip, expect_64, expect_132,
}
use ciel_sol.Signer.Pea.Accept.{HasWire, HasAttestation, HasSignature, IsAccepted, accepts}

same_bytes_eq : (x y : Bytes) → same_bytes x y ≡ true → x ≡ y
same_bytes_eq [] [] h = refl
same_bytes_eq [] (b ∷ y) h = cc
same_bytes_eq (a ∷ x) [] h = cc
same_bytes_eq (a ∷ x) (b ∷ y) h = ground (arith, same_bytes_eq x y)

module _ (lib : PeaLib) where
  then_do-inr :
      {A B : Type 0} (x : Error lib ⊎ A) (f : A → Error lib ⊎ B) (b : B)
      → then_do lib x f ≡ inr b
      → (a : A) × ((x ≡ inr a) × (f a ≡ inr b))
  then_do-inr (inl e) f b h = cc
  then_do-inr (inr a) f b h = (a, (refl, h))

  ok_or-inr :
      {A : Type 0} (message : String) (o : Option A) (a : A)
      → ok_or lib message o ≡ inr a
      → o ≡ some a
  ok_or-inr message none a h = cc
  ok_or-inr message (some b) a h = cc

  prefixed-inr :
      {A : Type 0} (p : String) (x : String ⊎ A) (a : A) → prefixed lib p x ≡ inr a → x ≡ inr a
  prefixed-inr p (inl e) a h = cc
  prefixed-inr p (inr b) a h = cc

  expect_text-inr : (expected p s t : String) → expect_text lib expected p s ≡ inr t → s ≡ expected
  expect_text-inr expected p s t h = ground (arith, str_eq_iff s expected)

  expect_132-inr : (x y : Bytes) → expect_132 lib x ≡ inr y → (length x ≡ 132) × (x ≡ y)
  expect_132-inr x y h = ground arith

  expect_64-inr : (x y : Bytes) → expect_64 lib x ≡ inr y → (length x ≡ 64) × (x ≡ y)
  expect_64-inr x y h = ground arith

  expect_roundtrip-inr :
      (bytes : Bytes) (x a : CielAttestation)
      → expect_roundtrip lib bytes x ≡ inr a
      → ((ciel_codec lib.borsh).encode x ≡ bytes) × (x ≡ a)
  expect_roundtrip-inr bytes x a h =
      ground (arith, same_bytes_eq ((ciel_codec lib.borsh).encode x) bytes)

  whole-inr :
      (bytes : Bytes) (x : Option (CielAttestation × Bytes)) (a : CielAttestation)
      → whole lib bytes x ≡ inr a
      → x ≡ some (a, [])
  whole-inr bytes none a h = cc
  whole-inr bytes (some (b, [])) a h = cc
  whole-inr bytes (some (b, c ∷ rest)) a h = cc

  wire_bytes-inr : (e : Value) (bytes : Bytes) → wire_bytes lib e ≡ inr bytes → HasWire lib e bytes
  wire_bytes-inr e bytes h =
      let s1 = then_do-inr (ok_or lib "missing wire" (get e "wire")) _ bytes h in
      let s2 =
        then_do-inr (text_at lib "missing wire.fixture_version" s1.0 "fixture_version") _ bytes
          s1.1.1 in
      let s3 =
        then_do-inr (expect_text lib pea_fixture_version "unsupported fixture_version: " s2.0) _
          bytes s2.1.1 in
      let s4 = then_do-inr (text_at lib "missing wire.borsh_b64" s1.0 "borsh_b64") _ bytes s3.1.1 in
      let s5 = then_do-inr (prefixed lib "base64: " (lib.base64_decode s4.0)) _ bytes s4.1.1 in
      let last = expect_132-inr s5.0 bytes s5.1.1 in
      record {
        wire = s1.0;
        has_wire = ok_or-inr _ (get e "wire") s1.0 s1.1.0;
        fixture =
            ok_or-inr _ (get s1.0 "fixture_version" >>= as_str) s2.0 s2.1.0
            ∙ ap (λ s. some s) (expect_text-inr _ _ s2.0 s3.0 s3.1.0);
        b64 = s4.0;
        has_b64 = ok_or-inr _ (get s1.0 "borsh_b64" >>= as_str) s4.0 s4.1.0;
        decoded = prefixed-inr _ (lib.base64_decode s4.0) s5.0 s5.1.0 ∙ ap (λ b. inr b) last.1;
        width = sym (ap length last.1) ∙ last.0;
      }

  wire_attestation-inr :
      (e : Value) (a : CielAttestation) → wire_attestation lib e ≡ inr a → HasAttestation lib e a
  unfolding try_from_slice
  wire_attestation-inr e a h =
      let s1 = then_do-inr (wire_bytes lib e) _ a h in
      let s2 = then_do-inr (try_from_slice lib s1.0) _ a s1.1.1 in
      let last = expect_roundtrip-inr s1.0 s2.0 a s2.1.1 in
      record {
        bytes = s1.0;
        has_bytes = wire_bytes-inr e s1.0 s1.1.0;
        parsed =
            whole-inr s1.0 ((ciel_codec lib.borsh).decode s1.0) s2.0 s2.1.0
            ∙ ap (λ x. some (x, [])) last.1;
        encoded = sym (ap (ciel_codec lib.borsh).encode last.1) ∙ last.0;
      }

  envelope_signature-inr :
      (e : Value) (signature : Bytes)
      → envelope_signature lib e ≡ inr signature
      → HasSignature lib e signature
  envelope_signature-inr e signature h =
      let s1 = then_do-inr (text_at lib "missing signature" e "signature") _ signature h in
      let s2 =
        then_do-inr (prefixed lib "signature hex: " (lib.hex_decode s1.0)) _ signature s1.1.1 in
      let last = expect_64-inr s2.0 signature s2.1.1 in
      record {
        hex = s1.0;
        has_hex = ok_or-inr _ (get e "signature" >>= as_str) s1.0 s1.1.0;
        decoded = prefixed-inr _ (lib.hex_decode s1.0) s2.0 s2.1.0 ∙ ap (λ b. inr b) last.1;
        width = sym (ap length last.1) ∙ last.0;
      }

  abbrev ok_of : CielAttestation × Bytes → Error lib ⊎ (CielAttestation × Bytes)
  ok_of x = inr x

  eq_of_inr : (x y : CielAttestation × Bytes) → ok_of x ≡ ok_of y → x ≡ y
  eq_of_inr x y h = ap value h
    where
      value : Error lib ⊎ (CielAttestation × Bytes) → CielAttestation × Bytes
      value (inl e) = x
      value (inr z) = z

  -- What it accepts is such an envelope.
  accepted :
      (e : Value) (a : CielAttestation) (signature : Bytes)
      → from_pea_json lib e ≡ inr (a, signature)
      → IsAccepted lib e a signature
  unfolding from_pea_json
  accepted e a signature h =
      let x1 = text_at lib "missing spec_version" e "spec_version" in
      let s1 = then_do-inr x1 _ (a, signature) h in
      let x2 = expect_text lib pea_spec_version "unsupported spec_version: " s1.0 in
      let s2 = then_do-inr x2 _ (a, signature) s1.1.1 in
      let s3 = then_do-inr (wire_attestation lib e) _ (a, signature) s2.1.1 in
      let s4 = then_do-inr (envelope_signature lib e) _ (a, signature) s3.1.1 in
      let last = eq_of_inr (s3.0, s4.0) (a, signature) s4.1.1 in
      record {
        version =
            ok_or-inr _ (get e "spec_version" >>= as_str) s1.0 s1.1.0
            ∙ ap (λ s. some s) (expect_text-inr _ _ s1.0 s2.0 s2.1.0);
        attestation =
            subst (HasAttestation lib e) (ap (λ x. x.0) last) (wire_attestation-inr e s3.0 s3.1.0);
        signed =
            subst (HasSignature lib e) (ap (λ x. x.1) last) (envelope_signature-inr e s4.0 s4.1.0);
      }

  -- The parser returns an attestation and a signature exactly for an envelope with the
  -- specification's version and the fixture's, whose Base64 text holds 132 bytes that decode to the
  -- attestation and are its encoding, and whose signature is 64 bytes in hex.
  pub from_pea_json-accepts_iff :
      (e : Value) (a : CielAttestation) (signature : Bytes)
      → (from_pea_json lib e ≡ inr (a, signature)) ↔ IsAccepted lib e a signature
  from_pea_json-accepts_iff e a signature = (accepted e a signature, accepts lib e a signature)

-- ===== src/Signer/Pea/Envelope.antt =====
-- What an envelope carries, and what the parser ignores of it.
use ciel_sol.Base.{
  ◌≡◌, refl, Option, none, some, List, [], ◌∷◌, String, str_eq, str_eq_iff, length, if◌then◌else◌,
  inr, arith, ap, ◌∙◌, sym,
}
use mathlib.Core.List.{append-nil}
use ciel_sol.Signer.Attestation.{Bytes, CielAttestation}
use ciel_sol.Signer.Borsh.{IsBorsh}
use ciel_sol.Signer.Wire.{ciel_codec}
use ciel_sol.Signer.Wire.Layout.{IsCiel, ciel_codec-roundtrip}
use ciel_sol.Signer.Json.{
  Value, Members, no_members, member, object, get_member, get, set_member, set, string,
}
use ciel_sol.Signer.Pea.{
  PeaFlag, PeaIntent, PeaLib, wire_value, to_pea_json, from_pea_json, pea_spec_version,
}
use ciel_sol.Signer.Pea.Accept.{IsAccepted, accepts}

-- Base64 and hex read back what they write.
pub record IsPea (lib : PeaLib) : Type 0 where
  pub borsh_lib : IsBorsh lib.borsh
  pub base64_back : (bytes : Bytes) → lib.base64_decode (lib.base64_encode bytes) ≡ inr bytes
  pub hex_back : (bytes : Bytes) → lib.hex_decode (lib.hex_encode bytes) ≡ inr bytes

get-set_member :
    (m : Members) (k j : String) (v : Value)
    → get_member (set_member m k v) j ≡ (if str_eq k j then some v else get_member m j)
unfolding set_member
get-set_member no_members k j v = refl
get-set_member (member i w m) k j v =
    ground (arith, get-set_member m k j v, str_eq_iff i k, str_eq_iff i j, str_eq_iff k j)

module _ (lib : PeaLib) where
  -- The parser reads four members.
  from_pea_json-cong :
      (x y : Value)
      → get x "spec_version" ≡ get y "spec_version"
      → get x "wire" ≡ get y "wire"
      → get x "signature" ≡ get y "signature"
      → from_pea_json lib x ≡ from_pea_json lib y
  unfolding from_pea_json
  from_pea_json-cong x y s w g = rw (s, w, g) refl

  -- Whatever stands in the attestation object of an envelope, and also where there is none, the
  -- parser returns the same.
  pub from_pea_json-set :
      (m : Members) (v : Value)
      → from_pea_json lib (set (object m) "attestation" v) ≡ from_pea_json lib (object m)
  from_pea_json-set m v =
      from_pea_json-cong (set (object m) "attestation" v) (object m)
        (get-set_member m "attestation" "spec_version" v) (get-set_member m "attestation" "wire" v)
        (get-set_member m "attestation" "signature" v)

  module _ (h : IsPea lib) (a : CielAttestation) (signature : Bytes) where
    IsAccepted-parts :
        (e : Value)
        → IsCiel a
        → length signature ≡ 64
        → get e "spec_version" ≡ some (string pea_spec_version)
        → get e "wire" ≡ some (wire_value lib a)
        → get e "signature" ≡ some (string (lib.hex_encode signature))
        → IsAccepted lib e a signature
    IsAccepted-parts e c l v w g =
        let r = ciel_codec-roundtrip lib.borsh h.borsh_lib a [] c in
        let bytes = (ciel_codec lib.borsh).encode a in
        record {
          version = rw v refl;
          attestation = record {
            bytes = bytes;
            has_bytes = record {
              wire = wire_value lib a;
              has_wire = w;
              fixture = refl;
              b64 = lib.base64_encode bytes;
              has_b64 = refl;
              decoded = h.base64_back bytes;
              width = r.0;
            };
            parsed = sym (ap (ciel_codec lib.borsh).decode (append-nil bytes)) ∙ r.1;
            encoded = refl;
          };
          signed = record {
            hex = lib.hex_encode signature;
            has_hex = rw g refl;
            decoded = h.hex_back signature;
            width = l;
          };
        }

    -- An envelope made from an attestation within its types and a signature of 64 bytes, with any
    -- flags and any intent, is read back to both, where Borsh meets its specification and Base64
    -- and hex read back what they write.
    pub from_pea_json-to_pea_json :
        (flags : List PeaFlag) (intent : Option PeaIntent)
        → IsCiel a
        → length signature ≡ 64
        → from_pea_json lib (to_pea_json lib a signature flags intent) ≡ inr (a, signature)
    unfolding to_pea_json set_member
    from_pea_json-to_pea_json flags intent c l =
        accepts lib (to_pea_json lib a signature flags intent) a signature (envelope flags intent)
      where
        envelope :
            (flags : List PeaFlag) (intent : Option PeaIntent)
            → IsAccepted lib (to_pea_json lib a signature flags intent) a signature
        envelope [] none = IsAccepted-parts _ c l refl refl refl
        envelope (f ∷ fs) none = IsAccepted-parts _ c l refl refl refl
        envelope [] (some i) = IsAccepted-parts _ c l refl refl refl
        envelope (f ∷ fs) (some i) = IsAccepted-parts _ c l refl refl refl

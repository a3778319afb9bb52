-- ===== src/Signer/Pea.antt =====
-- crates/ciel-signer/src/pea.rs: the JSON envelope around a signed attestation. Base64, hex, UTF-8
-- and the texts of the libraries' errors are parameters. The one error is
-- `SignerError::Serialization`, whose text is the list of its pieces.
pub mod Accept
pub mod Parse
pub mod Envelope
use ciel_sol.Base.{
  ℕ, ◌==◌, Bool, true, false, Option, none, some, List, [], ◌∷◌, String, str_eq, map, length,
  is_empty, if◌then◌else◌, ◌⊎◌, inl, inr, ◌>>=◌,
}
use ciel_sol.Base.Int.{ℤ}
use ciel_sol.Signer.Json.{
  Value, Values, Members, null, bool, number, integer, string, array, object, no_members, member,
  get, as_str, set_member, set, object_of, array_of,
}
use ciel_sol.Checkers.Json.{Piece, lit, num}
use ciel_sol.Checkers.Oracle.{same_bytes}
use ciel_sol.Signer.Attestation.{Bytes, CielAttestation, timeout_sentinel}
use ciel_sol.Signer.Borsh.{BorshLib, Codec}
use ciel_sol.Signer.Wire.{ciel_codec}

abbrev pub pea_fixture_version : String
pea_fixture_version = "ciel_attestation_v1"

abbrev pub pea_spec_version : String
pea_spec_version = "ciel-pea/1.0"

pub data PeaFlagSeverity : Type 0 where
  info warn block : PeaFlagSeverity

pub record PeaFlag : Type 0 where
  pub code : String
  pub severity : PeaFlagSeverity
  pub detail : Option String

pub record PeaIntent : Type 0 where
  pub intent_nl : Option String
  pub intent_fingerprint : Option String
  pub intent_satisfied : Option Bool

pub record PeaLib : Type 0 where
  pub borsh : BorshLib
  pub borsh_error : Bytes → String
  pub base64_encode : Bytes → String
  pub base64_decode : String → String ⊎ Bytes
  pub hex_encode : Bytes → String
  pub hex_decode : String → String ⊎ Bytes
  pub from_utf8 : Bytes → Option String

abbrev severity_upper : PeaFlagSeverity → String
severity_upper info = "INFO"
severity_upper warn = "WARN"
severity_upper block = "BLOCK"

-- A field that is skipped where it is `None`.
abbrev pub optional : {A : Type 0} → String → (A → Value) → Option A → Members → Members
optional k f none m = m
optional k f (some a) m = member k (f a) m

-- What `derive(Serialize)` makes of a flag and of an intent.
abbrev pub flag_value : PeaFlag → Value
flag_value f = object (
    member "code" (string f.code) (
      member "severity" (string (severity_upper f.severity))
        (optional "detail" string f.detail no_members)))

abbrev pub intent_value : PeaIntent → Value
intent_value i = object (
    optional "intent_nl" string i.intent_nl (
      optional "intent_fingerprint" string i.intent_fingerprint
        (optional "intent_satisfied" bool i.intent_satisfied no_members)))

abbrev string_or : String → Option String → String
string_or d none = d
string_or d (some s) = s

abbrev with_flags : List PeaFlag → Value → Value
with_flags flags envelope =
    if is_empty flags
    then envelope
    else set envelope "flags" (array (array_of (map flag_value flags)))

abbrev with_intent : Option PeaIntent → Value → Value
with_intent none envelope = envelope
with_intent (some i) envelope = set envelope "intent" (intent_value i)

module _ (lib : PeaLib) where
  abbrev attestation_value : CielAttestation → Value
  attestation_value a = object (
      object_of (
        ("magic", string (string_or "????" (lib.from_utf8 a.magic)))
        ∷ ("version", number a.version)
        ∷ ("tx_hash", string (lib.hex_encode a.tx_hash))
        ∷ ("verdict", number a.verdict)
        ∷ ("safety_score", number a.safety_score)
        ∷ ("optimality_score", number a.optimality_score)
        ∷ ("checker_outputs_hash", string (lib.hex_encode a.checker_outputs_hash))
        ∷ ("slot", number a.slot)
        ∷ ("expiry_slot", number a.expiry_slot)
        ∷ ("signer", string (lib.hex_encode a.signer))
        ∷ ("timestamp", integer a.timestamp)
        ∷ ("timeout_at_ms", number a.timeout_at_ms)
        ∷ []))

  abbrev pub wire_value : CielAttestation → Value
  wire_value a = object (
      object_of (
        ("borsh_b64", string (lib.base64_encode ((ciel_codec lib.borsh).encode a)))
        ∷ ("fixture_version", string pea_fixture_version)
        ∷ []))

  unfoldable pub to_pea_json : CielAttestation → Bytes → List PeaFlag → Option PeaIntent → Value
  unfolding set_member
  to_pea_json a signature flags i = with_intent i (
      with_flags flags (
        object (
          object_of (
            ("spec_version", string pea_spec_version)
            ∷ ("attestation", attestation_value a)
            ∷ ("signature", string (lib.hex_encode signature))
            ∷ ("wire", wire_value a)
            ∷ []))))

  abbrev pub Error : Type 0
  Error = List Piece

  -- `?` on a result.
  abbrev pub then_do : {A B : Type 0} → Error ⊎ A → (A → Error ⊎ B) → Error ⊎ B
  then_do (inl e) f = inl e
  then_do (inr a) f = f a

  abbrev pub ok_or : {A : Type 0} → String → Option A → Error ⊎ A
  ok_or message none = inl (lit message ∷ [])
  ok_or message (some a) = inr a

  abbrev pub prefixed : {A : Type 0} → String → String ⊎ A → Error ⊎ A
  prefixed p (inl e) = inl (lit p ∷ lit e ∷ [])
  prefixed p (inr a) = inr a

  -- A member that must be a string.
  abbrev pub text_at : String → Value → String → Error ⊎ String
  text_at message v k = ok_or message (get v k >>= as_str)

  abbrev pub expect_text : String → String → String → Error ⊎ String
  expect_text expected p s = if str_eq s expected then inr s else inl (lit p ∷ lit s ∷ [])

  abbrev pub whole : Bytes → Option (CielAttestation × Bytes) → Error ⊎ CielAttestation
  whole bytes (some (a, [])) = inr a
  whole bytes (some (a, b ∷ rest)) = inl (lit (lib.borsh_error bytes) ∷ [])
  whole bytes none = inl (lit (lib.borsh_error bytes) ∷ [])

  -- `CielAttestation::try_from_slice`, for which bytes left over are an error.
  unfoldable pub try_from_slice : Bytes → Error ⊎ CielAttestation
  try_from_slice bytes = whole bytes ((ciel_codec lib.borsh).decode bytes)

  abbrev pub expect_132 : Bytes → Error ⊎ Bytes
  expect_132 bytes =
      if length bytes == 132
      then inr bytes
      else inl (lit "wire length " ∷ num (length bytes) ∷ lit " != 132" ∷ [])

  abbrev pub expect_roundtrip : Bytes → CielAttestation → Error ⊎ CielAttestation
  expect_roundtrip bytes a =
      if same_bytes ((ciel_codec lib.borsh).encode a) bytes
      then inr a
      else inl (lit "wire bytes did not roundtrip — tamper or encoder drift" ∷ [])

  abbrev pub expect_64 : Bytes → Error ⊎ Bytes
  expect_64 bytes =
      if length bytes == 64 then inr bytes else inl (lit "signature not 64 bytes" ∷ [])

  -- The wire bytes.
  abbrev pub wire_bytes : Value → Error ⊎ Bytes
  wire_bytes envelope = then_do (ok_or "missing wire" (get envelope "wire")) (λ wire.
      then_do (text_at "missing wire.fixture_version" wire "fixture_version") (λ version.
        then_do (expect_text pea_fixture_version "unsupported fixture_version: " version) (λ _.
          then_do (text_at "missing wire.borsh_b64" wire "borsh_b64")
            (λ b64. then_do (prefixed "base64: " (lib.base64_decode b64)) expect_132))))

  abbrev pub wire_attestation : Value → Error ⊎ CielAttestation
  wire_attestation envelope =
      then_do (wire_bytes envelope)
        (λ bytes. then_do (try_from_slice bytes) (expect_roundtrip bytes))

  abbrev pub envelope_signature : Value → Error ⊎ Bytes
  envelope_signature envelope =
      then_do (text_at "missing signature" envelope "signature")
        (λ hex. then_do (prefixed "signature hex: " (lib.hex_decode hex)) expect_64)

  unfoldable pub from_pea_json : Value → Error ⊎ (CielAttestation × Bytes)
  unfolding try_from_slice
  from_pea_json envelope =
      then_do (text_at "missing spec_version" envelope "spec_version") (λ version.
        then_do (expect_text pea_spec_version "unsupported spec_version: " version) (λ _.
          then_do (wire_attestation envelope)
            (λ a. then_do (envelope_signature envelope) (λ signature. inr (a, signature)))))

unfoldable pub timeout_score_sentinel : ℕ
timeout_score_sentinel = timeout_sentinel

unfoldable pub verdict_label : ℕ → String
verdict_label v =
    if v == 0
    then "APPROVE"
    else if v == 1
    then "WARN"
    else if v == 2
    then "BLOCK"
    else if v == 3
    then "TIMEOUT"
    else "UNKNOWN"

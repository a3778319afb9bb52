-- ===== src/Examples/Envelope.antt =====
-- The envelope of an attestation, over texts that count a byte in letters.
use Prim.Native.Char.{code}
use ciel_sol.Base.{
  ℕ, zero, suc, ◌+◌, ◌≡◌, refl, true, none, some, [], ◌∷◌, String, ◌==◌, length, replicate,
  if◌then◌else◌, inr, arith, ap, ap₂, ◌∙◌, ◌↔◌,
}
use ciel_sol.Checkers.Types.{low}
use ciel_sol.Fork.Staleness.{state, time_since_last_update}
use ciel_sol.Signer.Attestation.{Bytes, verdict_u8, CielAttestation}
use ciel_sol.Signer.LittleEndian.{borsh, borsh-IsBorsh}
use ciel_sol.Signer.Wire.{ciel_codec}
use ciel_sol.Signer.Wire.Layout.{IsCiel}
use ciel_sol.Signer.Keys.{Ed25519}
use ciel_sol.Signer.Pea.{PeaFlag, PeaFlagSeverity, PeaIntent, PeaLib, to_pea_json, from_pea_json}
use ciel_sol.Signer.Pea.Accept.{IsAccepted}
use ciel_sol.Signer.Pea.Parse.{from_pea_json-accepts_iff}
use ciel_sol.Signer.Pea.Envelope.{IsPea, from_pea_json-to_pea_json}
use ciel_sol.Pipeline.Verdict.{ok, VerdictResponse, Env, respond, results_of, evaluate_raw_tx}
use ciel_sol.Pipeline.Verdict.Typed.{IsTyped, evaluate_raw_tx-IsCiel}
use ciel_sol.Examples.Calls.{env, run, pipeline}
use ciel_sol.Examples.Data.{transaction, trace_of}
use ciel_sol.Examples.Wire.{attestation, attestation-IsCiel}

-- A byte n is n times the letter x, and a comma.
abbrev pub write_byte : ℕ → String → String
write_byte zero s = String.◌∷◌ "," s
write_byte (suc n) s = String.◌∷◌ "x" (write_byte n s)

unfoldable pub write : Bytes → String
write [] = String.[]
write (b ∷ bytes) = write_byte b (write bytes)

unfoldable pub read_from : ℕ → String → Bytes
read_from n String.[] = []
read_from n (String.◌∷◌ c s) =
    let after = read_from 0 s in
    let more = read_from (suc n) s in if code c == b',' then n ∷ after else more

pub read_from-write_byte :
    (n b : ℕ) (s : String) → read_from n (write_byte b s) ≡ (n + b) ∷ read_from 0 s
unfolding read_from
read_from-write_byte n zero s = ap (λ m. m ∷ read_from 0 s) (omega arith)
read_from-write_byte n (suc b) s =
    read_from-write_byte (suc n) b s ∙ ap (λ m. m ∷ read_from 0 s) (omega arith)

pub read_from-write : (bytes : Bytes) → read_from 0 (write bytes) ≡ bytes
unfolding write read_from
read_from-write [] = refl
read_from-write (b ∷ bytes) =
    read_from-write_byte 0 b (write bytes) ∙ ap₂ ◌∷◌ (omega arith) (read_from-write bytes)

abbrev lib : PeaLib
lib = record {
  borsh = borsh;
  borsh_error = λ bytes. "unexpected length of input";
  base64_encode = write;
  base64_decode = λ s. inr (read_from 0 s);
  hex_encode = write;
  hex_decode = λ s. inr (read_from 0 s);
  from_utf8 = λ bytes. some "CIEL";
}

lib-IsPea : IsPea lib
lib-IsPea = record {
  borsh_lib = borsh-IsBorsh;
  base64_back = λ bytes. ap (λ b. inr b) (read_from-write bytes);
  hex_back = λ bytes. ap (λ b. inr b) (read_from-write bytes);
}

abbrev flag : PeaFlag
flag = record {
  code = "ORACLE_DEVIATION";
  severity = PeaFlagSeverity.block;
  detail = some "spread 42%";
}

abbrev intent : PeaIntent
intent = record {
  intent_nl = some "deposit CVT and borrow SOL";
  intent_fingerprint = none;
  intent_satisfied = some true;
}

from_pea_json-to_pea_json_example :
    from_pea_json lib (to_pea_json lib attestation (replicate 64 187) (flag ∷ []) (some intent))
    ≡ inr (attestation, replicate 64 187)
from_pea_json-to_pea_json_example =
    from_pea_json-to_pea_json lib lib-IsPea attestation (replicate 64 187) (flag ∷ []) (some intent)
      attestation-IsCiel refl

from_pea_json-accepts_iff_example :
    (from_pea_json lib (to_pea_json lib attestation (replicate 64 187) [] none)
      ≡ inr (attestation, replicate 64 187))
    ↔ IsAccepted lib
        (to_pea_json lib attestation (replicate 64 187) [] none)
        attestation
        (replicate 64 187)
from_pea_json-accepts_iff_example =
    from_pea_json-accepts_iff lib (to_pea_json lib attestation (replicate 64 187) [] none)
      attestation (replicate 64 187)

-- Keys and signatures of the right widths.
abbrev fixed_width : Ed25519
fixed_width = record {
  verifying_key = λ seed. replicate 32 1;
  sign = λ seed message. replicate 64 2;
  is_verifying_key = λ key. true;
  verify_strict = λ key message signature. true;
  from_keypair_bytes = λ bytes. some bytes;
}

abbrev typed_env : Env ℕ
typed_env = record env { ed25519 = fixed_width; pinned_slot = λ slot. 350 }

typed_env-IsTyped : IsTyped typed_env
typed_env-IsTyped = record {
  hash_typed = λ bytes. omega arith;
  key_typed = λ seed. omega arith;
  signature_typed = λ seed message. refl;
  slot_typed = λ slot. omega arith;
}

abbrev typed_reply : VerdictResponse
typed_reply =
    respond typed_env (pipeline low) run (replicate 32 7) 350 none
      (results_of (pipeline low) run (trace_of [] []) transaction 350)

typed_replied : (evaluate_raw_tx typed_env (pipeline low) run transaction).0 ≡ ok typed_reply
unfolding evaluate_raw_tx state time_since_last_update
typed_replied = refl

evaluate_raw_tx-IsCiel_example :
    (a : CielAttestation) × (IsCiel a
      × (a.verdict ≡ verdict_u8 typed_reply.verdict)
      × (a.tx_hash ≡ typed_reply.tx_hash)
      × (length typed_reply.attestation_bytes ≡ 132)
      × ((ciel_codec borsh).decode typed_reply.attestation_bytes ≡ some (a, []))
      × (from_pea_json lib (to_pea_json lib a typed_reply.signature_bytes [] none)
          ≡ inr (a, typed_reply.signature_bytes)))
evaluate_raw_tx-IsCiel_example =
    evaluate_raw_tx-IsCiel typed_env typed_env-IsTyped run transaction (pipeline low) typed_reply
      lib [] none typed_replied (omega arith) lib-IsPea

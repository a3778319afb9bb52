-- ===== src/Pipeline/Verdict/Typed.antt =====
-- The attestation of a response is within its types, so that its bytes are read back and its
-- envelope is accepted.
use ciel_sol.Base.{
  ℕ, ◌<◌, ◌≤◌, String, Bool-cases, ◌≡◌, refl, false, Option, none, some, List, [], length, arith,
  ◌⊎◌, inl, inr, ap, ◌∙◌, sym, subst,
}
use ciel_sol.Base.Int.{ℤ}
use mathlib.Core.List.{append-nil}
use ciel_sol.Checkers.Types.{SimulationTrace, Transaction}
use ciel_sol.Checkers.Results.{CheckerResults}
use ciel_sol.Checkers.Hash.{checker_outputs_hash}
use ciel_sol.Fork.Staleness.{StalenessState, state}
use ciel_sol.Signer.Attestation.{
  Bytes, Verdict, timeout, verdict_u8, CielAttestation, new, new_timeout,
}
use ciel_sol.Signer.Borsh.{InWord, InI64, IsArray}
use ciel_sol.Signer.Keys.{sign_attestation, pubkey_bytes}
use ciel_sol.Signer.Wire.{ciel_codec}
use ciel_sol.Signer.Wire.Layout.{IsCiel, ciel_codec-roundtrip}
use ciel_sol.Signer.Pea.{PeaLib, PeaFlag, PeaIntent, to_pea_json, from_pea_json}
use ciel_sol.Signer.Pea.Envelope.{IsPea, from_pea_json-to_pea_json}
use ciel_sol.Pipeline.Score.{compute_safety_score, score_to_verdict, encode_score_u16}
use ciel_sol.Pipeline.Score.Encode.{encode_score_u16-le}
use ciel_sol.Pipeline.Verdict.{
  Result, ok, err, lock, zero_hash, min_u16, hash_bytes, compute_tx_hash, timeout_response,
  check_and_respond, simulate, by_staleness, with_hash, VerdictResponse, Env, Run, VerdictPipeline,
  timeout_of, downgrade, respond, results_of, build_timeout_response, evaluate_raw_tx,
  timeout_attestation, raw_attestation,
}
use ciel_sol.Pipeline.Verdict.Outcome.{Outcome, late, judged, evaluate_raw_tx-Outcome, reason_of}

-- The libraries return 32 bytes for a hash and for a key and 64 for a signature, and a fork's slot
-- is a word.
pub record IsTyped {Sim : Type 0} (env : Env Sim) : Type 0 where
  pub hash_typed : (bytes : Bytes) → IsArray 32 (env.hash_lib.sha256 bytes)
  pub key_typed : (seed : Bytes) → IsArray 32 (env.ed25519.verifying_key seed)
  pub signature_typed : (seed message : Bytes) → length (env.ed25519.sign seed message) ≡ 64
  pub slot_typed : (sim : Sim) → InWord 18446744073709551616 (env.pinned_slot sim)

verdict_u8-le : (v : Verdict) → verdict_u8 v ≤ 3
verdict_u8-le v = ground arith

-- What `new` makes of arguments within their types.
new-IsCiel :
    (tx_hash : Bytes) (verdict : Verdict) (safety optimality : ℕ) (outputs_hash : Bytes) (slot : ℕ)
    (signer : Bytes) (timestamp : ℤ) (timeout_at_ms : ℕ)
    → IsArray 32 tx_hash
    → safety < 65536
    → optimality < 65536
    → IsArray 32 outputs_hash
    → InWord 18446744073709551616 slot
    → IsArray 32 signer
    → InI64 timestamp
    → timeout_at_ms < 65536
    → IsCiel
        (new tx_hash verdict safety optimality outputs_hash slot signer timestamp timeout_at_ms)
unfolding new
new-IsCiel tx_hash verdict safety optimality outputs_hash slot signer timestamp ms h s o u w k t m =
    (
      omega arith,
      (
        omega arith,
        (h, (omega (arith, verdict_u8-le verdict), (s, (o, (u, (w, (omega arith, (k, (t, m))))))))),
      ),
    )

-- What holds of a value that is returned.
abbrev OnOk : {A : Type 0} → (A → Type 0) → Result A → Type 0
OnOk P (ok a) = P a
OnOk P (err e) = Unit {0}

abbrev HasTypes : VerdictResponse → Type 0
HasTypes r = IsArray 32 r.tx_hash × InWord 18446744073709551616 r.slot

module _ {Sim : Type 0} (env : Env Sim) (h : IsTyped env) (run : Run) (tx : Transaction) where
  hash_bytes-typed : (x : String ⊎ Bytes) → OnOk (IsArray 32) (hash_bytes env.hash_lib x)
  hash_bytes-typed (inl e) = tt
  hash_bytes-typed (inr bytes) = h.hash_typed bytes

  timeout_response-typed :
      (p : VerdictPipeline Sim) (hash : Result Bytes) (fork : Result Sim)
      → OnOk (IsArray 32) hash
      → OnOk HasTypes (timeout_response env p run hash fork)
  unfolding timeout_of
  timeout_response-typed p (err e) fork k = tt
  timeout_response-typed p (ok tx_hash) (err e) k = tt
  timeout_response-typed p (ok tx_hash) (ok sim) k = (k, h.slot_typed sim)

  traced-typed :
      (p : VerdictPipeline Sim) (tx_hash : Bytes) (slot : ℕ) (reason : Option String)
      (x : (String ⊎ SimulationTrace) × Sim)
      → IsArray 32 tx_hash
      → InWord 18446744073709551616 slot
      → OnOk HasTypes (check_and_respond env p run tx tx_hash slot reason x).0
  unfolding respond build_timeout_response timeout_of
  traced-typed p tx_hash slot reason (inl e, sim) k w = tt
  traced-typed p tx_hash slot reason (inr trace, sim) k w = elim (Bool-cases run.deadline_passes) [
    | inl d ↦ rw d (
        timeout_response-typed (record p { fork = record { poisoned = false; sim = sim } })
          (compute_tx_hash env tx) (ok sim) (hash_bytes-typed (env.serialize_tx tx)))
    | inr d ↦ rw d (k, w)
  ]

  simulated-typed :
      (p : VerdictPipeline Sim) (tx_hash : Bytes) (reason : Option String) (fork : Result Sim)
      → IsArray 32 tx_hash
      → OnOk HasTypes (simulate env p run tx tx_hash reason fork).0
  simulated-typed p tx_hash reason (err e) k = tt
  simulated-typed p tx_hash reason (ok sim) k =
      traced-typed p tx_hash (env.pinned_slot sim) reason (env.execute_transaction sim tx) k
        (h.slot_typed sim)

  by_state-typed :
      (p : VerdictPipeline Sim) (tx_hash : Bytes) (s : StalenessState)
      → IsArray 32 tx_hash
      → OnOk HasTypes (by_staleness env p run tx tx_hash s).0
  unfolding build_timeout_response
  by_state-typed p tx_hash StalenessState.fresh k = simulated-typed p tx_hash none (lock p.fork) k
  by_state-typed p tx_hash StalenessState.warn k =
      simulated-typed p tx_hash (some "state_parity_degraded") (lock p.fork) k
  by_state-typed p tx_hash StalenessState.timeout k =
      timeout_response-typed p (compute_tx_hash env tx) (lock p.fork)
        (hash_bytes-typed (env.serialize_tx tx))

  hashed-typed :
      (p : VerdictPipeline Sim) (hash : Result Bytes)
      → OnOk (IsArray 32) hash
      → OnOk HasTypes (with_hash env p run tx hash).0
  hashed-typed p (err e) k = tt
  hashed-typed p (ok tx_hash) k = by_state-typed p tx_hash (state p.staleness run.now) k

  evaluated-typed : (p : VerdictPipeline Sim) → OnOk HasTypes (evaluate_raw_tx env p run tx).0
  unfolding evaluate_raw_tx
  evaluated-typed p =
      hashed-typed p (compute_tx_hash env tx) (hash_bytes-typed (env.serialize_tx tx))

  outputs-typed : (c : CheckerResults) → IsArray 32 (checker_outputs_hash env.hash_lib c)
  unfolding checker_outputs_hash
  outputs-typed c = h.hash_typed _

  -- The attestation behind an outcome.
  Outcome-IsCiel :
      (p : VerdictPipeline Sim) (r : VerdictResponse)
      → Outcome env p run tx r
      → InI64 run.timestamp
      → HasTypes r
      → (a : CielAttestation) × ((sign_attestation env.ed25519 env.borsh p.signer a
            ≡ (r.attestation_bytes, r.signature_bytes))
          × (a.verdict ≡ verdict_u8 r.verdict)
          × (a.tx_hash ≡ r.tx_hash)
          × IsCiel a)
  unfolding timeout_of respond new new_timeout pubkey_bytes
  Outcome-IsCiel p _ (late tx_hash slot x) t k = (
    timeout_attestation env p run tx_hash slot,
    (
      refl,
      refl,
      refl,
      new-IsCiel tx_hash timeout 65535 65535 zero_hash slot (pubkey_bytes env.ed25519 p.signer)
          run.timestamp (min_u16 run.elapsed_ms) k.0 (omega arith) (omega arith) (omega arith) k.1
          (h.key_typed p.signer.signing_key) t (ground arith),
    ),
  )
  Outcome-IsCiel p _ (judged tx_hash slot trace _ _ _) t k =
      let c = results_of p run trace tx slot in
      let reason = reason_of (state p.staleness run.now) in
      (
        raw_attestation env p run tx_hash slot reason c,
        (
          refl,
          refl,
          refl,
          new-IsCiel tx_hash (downgrade reason (score_to_verdict (compute_safety_score c) c))
              (encode_score_u16 (compute_safety_score c)) 0 (checker_outputs_hash env.hash_lib c)
              slot (pubkey_bytes env.ed25519 p.signer) run.timestamp 0 k.0
              (omega (arith, encode_score_u16-le (compute_safety_score c))) (omega arith)
              (outputs-typed c) k.1 (h.key_typed p.signer.signing_key) t (omega arith),
        ),
      )

  -- With libraries that return 32 bytes for a hash and for a key and 64 for a signature, slots that
  -- are words, and a time that is an i64, and where the parser's libraries read back what they
  -- write, the bytes of a response are 132 and decode, with nothing left over, to an attestation of
  -- the response's verdict and transaction hash whose fields are within their types; and an
  -- envelope made of it with the response's signature, any flags and any intent is read back to
  -- both.
  pub evaluate_raw_tx-IsCiel :
      (p : VerdictPipeline Sim) (r : VerdictResponse) (lib : PeaLib) (flags : List PeaFlag)
      (intent : Option PeaIntent)
      → (evaluate_raw_tx env p run tx).0 ≡ ok r
      → InI64 run.timestamp
      → IsPea (record lib { borsh = env.borsh })
      → (a : CielAttestation) × (IsCiel a
          × (a.verdict ≡ verdict_u8 r.verdict)
          × (a.tx_hash ≡ r.tx_hash)
          × (length r.attestation_bytes ≡ 132)
          × ((ciel_codec env.borsh).decode r.attestation_bytes ≡ some (a, []))
          × (from_pea_json
                (record lib { borsh = env.borsh })
                (to_pea_json (record lib { borsh = env.borsh }) a r.signature_bytes flags intent)
              ≡ inr (a, r.signature_bytes)))
  unfolding sign_attestation
  evaluate_raw_tx-IsCiel p r lib flags intent e t k =
      let (a, (signed, same_verdict, same_hash, typed)) =
        Outcome-IsCiel p r (evaluate_raw_tx-Outcome env p run tx r e) t
          (subst (OnOk HasTypes) e (evaluated-typed p)) in
      let bytes_eq : (ciel_codec env.borsh).encode a ≡ r.attestation_bytes = ap (λ x. x.0) signed in
      let round = ciel_codec-roundtrip env.borsh k.borsh_lib a [] typed in
      (
        a,
        (
          typed,
          same_verdict,
          same_hash,
          sym (ap length bytes_eq) ∙ round.0,
          ap (ciel_codec env.borsh).decode (sym bytes_eq ∙ sym (append-nil _)) ∙ round.1,
          from_pea_json-to_pea_json (record lib { borsh = env.borsh }) k a r.signature_bytes flags
              intent typed
              (sym (ap (λ x. length x.1) signed) ∙ h.signature_typed p.signer.signing_key _),
        ),
      )

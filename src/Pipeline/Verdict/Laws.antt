-- ===== src/Pipeline/Verdict/Laws.antt =====
-- What the responses of a call promise.
use ciel_sol.Base.{
  ℕ, ◌+◌, ◌%◌, ◌^◌, ◌≤◌, ◌≡◌, ◌≢◌, refl, true, false, Option, none, String, any, All, arith, ◌⊎◌,
  inl, inr, subst, ◌↔◌,
}
use ciel_sol.Base.Int.{ℤ, ◌≤ℤ◌}
use ciel_sol.Checkers.Types.{Transaction}
use ciel_sol.Checkers.Results.{CheckerResults, all_completed}
use ciel_sol.Fork.Staleness.{StalenessState, state}
use ciel_sol.Signer.Attestation.{
  Verdict, approve, block, timeout, verdict_u8, CielAttestation, new, new_timeout,
}
use ciel_sol.Signer.Keys.{
  sign_attestation, pubkey_bytes, verify_attestation, sign_attestation-verifies, IsEd25519,
}
use ciel_sol.Pipeline.Float.{f0_70}
use ciel_sol.Pipeline.Score.{compute_safety_score, score_to_verdict, is_critical}
use ciel_sol.Pipeline.Score.Laws.{IsMild, approve_means-IsMild, approve-le}
use ciel_sol.Pipeline.Score.Encode.{encode_score_u16-le}
use ciel_sol.Pipeline.Verdict.{
  ok, VerdictResponse, Env, Run, VerdictPipeline, timeout_of, downgrade, respond, results_of,
  evaluate_raw_tx, timeout_attestation, raw_attestation,
}
use ciel_sol.Pipeline.Verdict.Outcome.{Outcome, late, judged, evaluate_raw_tx-Outcome, reason_of}

abbrev SentinelOrScore : Verdict → ℕ → ℕ → Type 0
SentinelOrScore timeout safety optimality = (safety ≡ 65535) × (optimality ≡ 65535)
SentinelOrScore _ safety optimality = (safety ≤ 10000) × (optimality ≡ 0)

-- An attestation that says what the response says.
abbrev pub Attests : VerdictResponse → CielAttestation → Type 0
Attests r a =
    (a.verdict ≡ verdict_u8 r.verdict)
    × (a.tx_hash ≡ r.tx_hash)
    × (a.checker_outputs_hash ≡ r.checker_outputs_hash)
    × (a.slot ≡ r.slot)
    × (a.expiry_slot ≡ (r.slot + 2) % 2 ^ 64)
    × SentinelOrScore r.verdict a.safety_score a.optimality_score

downgrade-scores :
    (reason : Option String) (s : ℤ) (c : CheckerResults) (n : ℕ)
    → n ≤ 10000
    → SentinelOrScore (downgrade reason (score_to_verdict s c)) n 0
unfolding downgrade score_to_verdict
downgrade-scores reason s c n h = ground arith

downgrade-approve :
    (reason : Option String) (v : Verdict)
    → downgrade reason v ≡ approve
    → (v ≡ approve) × (reason ≡ none)
unfolding downgrade
downgrade-approve reason v h = ground arith

pub downgrade-not_timeout :
    (reason : Option String) (s : ℤ) (c : CheckerResults)
    → downgrade reason (score_to_verdict s c) ≢ timeout
unfolding downgrade score_to_verdict
downgrade-not_timeout reason s c = ground arith

downgrade-critical :
    (reason : Option String) (s : ℤ) (c : CheckerResults)
    → any is_critical (all_completed c) ≡ true
    → downgrade reason (score_to_verdict s c) ≡ block
unfolding downgrade score_to_verdict
downgrade-critical reason s c h = ground (arith, h)

none-fresh :
    (s : StalenessState)
    → s ≢ StalenessState.timeout
    → reason_of s ≡ none
    → s ≡ StalenessState.fresh
none-fresh s h k = ground arith

module _ {Sim : Type 0} (env : Env Sim) (p : VerdictPipeline Sim) (run : Run)
    (tx : Transaction) where
  attested :
      (r : VerdictResponse)
      → Outcome env p run tx r
      → (a : CielAttestation) × ((sign_attestation env.ed25519 env.borsh p.signer a
            ≡ (r.attestation_bytes, r.signature_bytes))
          × Attests r a)
  unfolding timeout_of respond new new_timeout
  attested _ (late h slot _) =
      (timeout_attestation env p run h slot, (refl, (refl, refl, refl, refl, refl, (refl, refl))))
  attested _ (judged h slot trace _ _ _) =
      let c = results_of p run trace tx slot in
      (
        raw_attestation env p run h slot (reason_of (state p.staleness run.now)) c,
        (refl, (refl, refl, refl, refl, refl, downgrade-scores _ _ c _ (encode_score_u16-le _))),
      )

  approved :
      (r : VerdictResponse)
      → Outcome env p run tx r
      → r.verdict ≡ approve
      → (state p.staleness run.now ≡ StalenessState.fresh)
        × (run.deadline_passes ≡ false)
        × (f0_70 ≤ℤ r.safety_score)
        × All IsMild (all_completed r.checker_results)
  unfolding timeout_of respond
  approved _ (late h slot _) e = cc
  approved _ (judged h slot trace _ n d) e =
      let c = results_of p run trace tx slot in
      let f =
        downgrade-approve (reason_of (state p.staleness run.now))
          (score_to_verdict (compute_safety_score c) c) e in
      (
        none-fresh (state p.staleness run.now) n f.1,
        d,
        approve-le (compute_safety_score c) c f.0,
        approve_means-IsMild c f.0,
      )

  critical_blocks :
      (r : VerdictResponse)
      → Outcome env p run tx r
      → any is_critical (all_completed r.checker_results) ≡ true
      → r.verdict ≡ block
  unfolding timeout_of respond
  critical_blocks _ (late h slot _) e = cc
  critical_blocks _ (judged h slot trace _ n d) e =
      downgrade-critical _ _ (results_of p run trace tx slot) e

  elim_late :
      {A : Type 0}
      → state p.staleness run.now ≢ StalenessState.timeout
      → run.deadline_passes ≡ false
      → (state p.staleness run.now ≡ StalenessState.timeout) ⊎ (run.deadline_passes ≡ true)
      → A
  elim_late n d (inl e) = absurd (n e)
  elim_late n d (inr e) = cc

  timeouts :
      (r : VerdictResponse)
      → Outcome env p run tx r
      → (r.verdict ≡ timeout)
        ↔ ((state p.staleness run.now ≡ StalenessState.timeout) ⊎ (run.deadline_passes ≡ true))
  unfolding timeout_of respond
  timeouts _ (late h slot x) = ((λ _. x), (λ _. refl))
  timeouts _ (judged h slot trace _ n d) =
      ((λ e. absurd (downgrade-not_timeout _ _ (results_of p run trace tx slot) e)), elim_late n d)

  module _ (r : VerdictResponse) (e : (evaluate_raw_tx env p run tx).0 ≡ ok r) where
    -- Where the Ed25519 library verifies what it signs, the signature of each response verifies
    -- against its attestation bytes under the pipeline's own key; and those bytes are the encoding
    -- of an attestation with the response's verdict, hashes and slot, that expires two slots later
    -- (modulo 2^64), whose scores are the sentinels for a TIMEOUT and otherwise a safety score of
    -- at most 10000 and no optimality score.
    pub evaluate_raw_tx-attested :
        IsEd25519 env.ed25519
        → (verify_attestation env.ed25519
              (pubkey_bytes env.ed25519 p.signer)
              r.attestation_bytes
              r.signature_bytes
            ≡ true)
          × ((a : CielAttestation) × ((sign_attestation env.ed25519 env.borsh p.signer a
                  ≡ (r.attestation_bytes, r.signature_bytes))
                × Attests r a))
    evaluate_raw_tx-attested h =
        let found = attested r (evaluate_raw_tx-Outcome env p run tx r e) in
        (
          subst
              (λ q.
                verify_attestation env.ed25519 (pubkey_bytes env.ed25519 p.signer) q.0 q.1 ≡ true)
              found.1.0 (sign_attestation-verifies env.ed25519 h env.borsh p.signer found.0),
          found,
        )

    -- Approve is returned only on fresh state, before the deadline, on a score of at least 0.70,
    -- and when no checker that completed reports High or Critical.
    pub approve_is_safe :
        r.verdict ≡ approve
        → (state p.staleness run.now ≡ StalenessState.fresh)
          × (run.deadline_passes ≡ false)
          × (f0_70 ≤ℤ r.safety_score)
          × All IsMild (all_completed r.checker_results)
    approve_is_safe = approved r (evaluate_raw_tx-Outcome env p run tx r e)

    -- A response whose results hold a Critical finding is a Block.
    pub critical_means_block :
        any is_critical (all_completed r.checker_results) ≡ true → r.verdict ≡ block
    critical_means_block h = critical_blocks r (evaluate_raw_tx-Outcome env p run tx r e) h

    -- The verdict of a response is Timeout exactly when the fork's state is stale or the deadline
    -- passed.
    pub timeout_verdict_iff :
        (r.verdict ≡ timeout)
        ↔ ((state p.staleness run.now ≡ StalenessState.timeout) ⊎ (run.deadline_passes ≡ true))
    timeout_verdict_iff = timeouts r (evaluate_raw_tx-Outcome env p run tx r e)

-- ===== src/Examples/Calls.antt =====
-- The score and the calls of the pipeline.
use ciel_sol.Base.{
  ℕ, ◌≤◌, ◌≡◌, refl, true, false, none, [], ◌∷◌, if◌then◌else◌, arith, All, any, ◌↔◌, ◌⊎◌, inr,
  replicate, not, ◌&&◌, ◌||◌,
}
use ciel_sol.Base.Int.{pos, ◌≤ℤ◌, ◌-ℤ◌}
use ciel_sol.Checkers.Types.{Severity, low, high, critical}
use ciel_sol.Checkers.Results.{
  completed, CheckerResults, all_completed, run_checkers, run_one, collect, put,
}
use ciel_sol.Fork.Staleness.{StalenessState, default_config, state, time_since_last_update}
use ciel_sol.Signer.Attestation.{verdict_u8, approve, block, timeout, CielAttestation}
use ciel_sol.Signer.Keys.{verify_attestation, pubkey_bytes, sign_attestation}
use ciel_sol.Signer.LittleEndian.{borsh}
use ciel_sol.Pipeline.Float.{f0_70, round, round53, sub, clamp}
use ciel_sol.Pipeline.Score.{compute_safety_score, score_to_verdict, subtract_all, is_critical}
use ciel_sol.Pipeline.Score.Laws.{IsMild}
use ciel_sol.Pipeline.Score.Order.{verdict-antitone}
use ciel_sol.Pipeline.Verdict.{
  ok, VerdictResponse, Env, Run, VerdictPipeline, respond, downgrade, evaluate_raw_tx, results_of,
}
use ciel_sol.Pipeline.Verdict.Laws.{
  Attests, evaluate_raw_tx-attested, approve_is_safe, critical_means_block, timeout_verdict_iff,
}
use ciel_sol.Pipeline.Verdict.Errors.{evaluate_raw_tx-answers, is_ok, is_inr, is_stale}
use ciel_sol.Examples.Data.{transaction, trace_of, checker, output}
use ciel_sol.Examples.Wire.Keys.{ed25519, ed25519-IsEd25519, signer}

abbrev results : Severity → CheckerResults
results s = record {
  outputs = ("a", completed (output "a" low)) ∷ ("b", completed (output "b" s)) ∷ [];
  total_duration_ms = 3;
}

verdict-antitone_example :
    verdict_u8 (score_to_verdict (compute_safety_score (results low)) (results low))
    ≤ verdict_u8 (score_to_verdict (compute_safety_score (results high)) (results high))
verdict-antitone_example =
    verdict-antitone (results low) (results high) (refl, omega arith, (refl, omega arith, tt))

-- A fork that is its slot, and executes every transaction.
abbrev pub env : Env ℕ
env = record {
  borsh = borsh;
  ed25519 = ed25519;
  hash_lib = record {
    string_le = λ s t. true;
    output_bytes = λ o. [];
    sha256 = λ bytes. replicate 32 7;
  };
  serialize_tx = λ tx. inr (1 ∷ []);
  pinned_slot = λ slot. slot;
  execute_transaction = λ slot tx. (inr (trace_of [] []), slot);
}

abbrev pub pipeline : Severity → VerdictPipeline ℕ
pipeline s = record {
  fork = record { poisoned = false; sim = 350 };
  checkers = checker "a" low ∷ checker "b" s ∷ [];
  signer = signer;
  staleness = record { last_update = 0; last_slot = 350; config = default_config };
}

abbrev pub run : Run
run = record {
  now = 1000000000;
  deadline_passes = false;
  in_time = λ c. true;
  checker_duration_ms = 3;
  timestamp = pos 1712000000;
  elapsed_ms = 8;
  timing = record {
    total_ms = 8;
    fork_sim_ms = 4;
    checkers_ms = 3;
    scoring_ms = 0;
    signing_ms = 0;
  };
}

abbrev reply : Severity → VerdictResponse
reply s =
    respond env (pipeline s) run (replicate 32 7) 350 none
      (results_of (pipeline s) run (trace_of [] []) transaction 350)

replied : (s : Severity) → (evaluate_raw_tx env (pipeline s) run transaction).0 ≡ ok (reply s)
unfolding evaluate_raw_tx state time_since_last_update
replied s = refl

evaluate_raw_tx-attested_example :
    (verify_attestation ed25519
        (pubkey_bytes ed25519 signer)
        (reply low).attestation_bytes
        (reply low).signature_bytes
      ≡ true)
    × ((a : CielAttestation) × ((sign_attestation ed25519 borsh signer a
            ≡ ((reply low).attestation_bytes, (reply low).signature_bytes))
          × Attests (reply low) a))
evaluate_raw_tx-attested_example =
    evaluate_raw_tx-attested env (pipeline low) run transaction (reply low) (replied low)
      ed25519-IsEd25519

approved : (reply low).verdict ≡ approve
unfolding respond downgrade score_to_verdict compute_safety_score subtract_all sub round round53
    clamp run_checkers run_one collect put ◌-ℤ◌
approved = refl

approve_is_safe_example :
    (state (pipeline low).staleness run.now ≡ StalenessState.fresh)
    × (run.deadline_passes ≡ false)
    × (f0_70 ≤ℤ (reply low).safety_score)
    × All IsMild (all_completed (reply low).checker_results)
approve_is_safe_example =
    approve_is_safe env (pipeline low) run transaction (reply low) (replied low) approved

found_critical : any is_critical (all_completed (reply critical).checker_results) ≡ true
unfolding respond run_checkers run_one collect put
found_critical = refl

critical_means_block_example : (reply critical).verdict ≡ block
critical_means_block_example =
    critical_means_block env (pipeline critical) run transaction (reply critical) (replied critical)
      found_critical

timeout_verdict_iff_example : ((reply low).verdict ≡ timeout) ↔ (
    (state (pipeline low).staleness run.now ≡ StalenessState.timeout)
    ⊎ (run.deadline_passes ≡ true))
timeout_verdict_iff_example =
    timeout_verdict_iff env (pipeline low) run transaction (reply low) (replied low)

evaluate_raw_tx-answers_example :
    (is_ok (evaluate_raw_tx env (pipeline low) run transaction).0 ≡ (
      is_inr (env.serialize_tx transaction)
      && (not (pipeline low).fork.poisoned
          && (is_stale (state (pipeline low).staleness run.now)
              || is_inr (env.execute_transaction (pipeline low).fork.sim transaction).0))))
    × ((evaluate_raw_tx env (pipeline low) run transaction).1 ≡ (
        if is_inr (env.serialize_tx transaction)
          && (not (pipeline low).fork.poisoned
              && not (is_stale (state (pipeline low).staleness run.now)))
        then record (pipeline low) { fork = record { poisoned = false; sim = 350 } }
        else pipeline low))
evaluate_raw_tx-answers_example = evaluate_raw_tx-answers env (pipeline low) run transaction

-- ===== src/Pipeline/Verdict.antt =====
-- crates/ciel-pipeline/src/pipeline.rs: one call of `evaluate_raw_tx`. The libraries, the executor
-- of the fork and what the clock and the scheduler do during the call are parameters.
pub mod Outcome
pub mod Laws
pub mod Errors
pub mod Handoff
pub mod Typed
use ciel_sol.Base.{
  ℕ, ◌≤◌, Bool, true, false, Option, none, some, List, [], ◌∷◌, String, if◌then◌else◌, leb,
  replicate, is_some, ◌⊎◌, inl, inr,
}
use ciel_sol.Base.Int.{ℤ, pos}
use ciel_sol.Checkers.Types.{SimulationTrace, Transaction}
use ciel_sol.Checkers.Registry.{with_mainnet_defaults}
use ciel_sol.Checkers.Results.{CheckerResults, CheckerContext, Checker, run_checkers}
use ciel_sol.Checkers.Hash.{HashLib, checker_outputs_hash}
use ciel_sol.Fork.Staleness.{StalenessState, StalenessTracker, state}
use ciel_sol.Signer.Attestation.{
  Bytes, Verdict, approve, warn, block, timeout, CielAttestation, new, new_timeout,
}
use ciel_sol.Signer.Borsh.{BorshLib}
use ciel_sol.Signer.Keys.{Ed25519, CielSigner, sign_attestation, pubkey_bytes}
use ciel_sol.Pipeline.Float.{F64}
use ciel_sol.Pipeline.Score.{compute_safety_score, score_to_verdict, encode_score_u16}

pub data PipelineError : Type 0 where
  fork_sim : String → PipelineError
  signer_error : String → PipelineError
  deadline : ℕ → PipelineError
  deserialization : String → PipelineError

pub data Result (A : Type 0) : Type 0 where
  ok : A → Result A
  err : PipelineError → Result A

pub record PipelineTiming : Type 0 where
  pub total_ms : ℕ
  pub fork_sim_ms : ℕ
  pub checkers_ms : ℕ
  pub scoring_ms : ℕ
  pub signing_ms : ℕ

pub record VerdictResponse : Type 0 where
  pub verdict : Verdict
  pub safety_score : F64
  pub attestation_bytes : Bytes
  pub signature_bytes : Bytes
  pub slot : ℕ
  pub tx_hash : Bytes
  pub checker_outputs_hash : Bytes
  pub checker_results : CheckerResults
  pub downgrade_reason : Option String
  pub timing : PipelineTiming

-- The libraries, and the fork's executor with its simulator.
pub record Env (Sim : Type 0) : Type 0 where
  pub borsh : BorshLib
  pub ed25519 : Ed25519
  pub hash_lib : HashLib
  pub serialize_tx : Transaction → String ⊎ Bytes  -- `bincode::serialize`
  pub pinned_slot : Sim → ℕ
  pub execute_transaction : Sim → Transaction → (String ⊎ SimulationTrace) × Sim

-- What the clock and the scheduler do in one call: the time at which staleness is read, whether
-- the deadline passes while the checkers run, and which checkers end in time.
pub record Run : Type 0 where
  pub now : ℕ
  pub deadline_passes : Bool
  pub in_time : Checker → Bool
  pub checker_duration_ms : ℕ
  pub timestamp : ℤ
  pub elapsed_ms : ℕ
  pub timing : PipelineTiming

-- The fork behind its mutex.
pub record Mutex (Sim : Type 0) : Type 0 where
  pub poisoned : Bool
  pub sim : Sim

pub record VerdictPipeline (Sim : Type 0) : Type 0 where
  pub fork : Mutex Sim
  pub checkers : List Checker
  pub signer : CielSigner
  pub staleness : StalenessTracker

abbrev pub lock : {Sim : Type 0} → Mutex Sim → Result Sim
lock m = if m.poisoned then err (deserialization "fork mutex poisoned") else ok m.sim

abbrev pub hash_bytes : HashLib → String ⊎ Bytes → Result Bytes
hash_bytes lib (inl e) = err (deserialization e)
hash_bytes lib (inr bytes) = ok (lib.sha256 bytes)

abbrev pub compute_tx_hash : {Sim : Type 0} → Env Sim → Transaction → Result Bytes
compute_tx_hash env tx = hash_bytes env.hash_lib (env.serialize_tx tx)

abbrev pub zero_hash : Bytes
zero_hash = replicate 32 0

-- `elapsed_ms.min(u16::MAX as u64) as u16`
abbrev pub min_u16 : ℕ → ℕ
min_u16 n = if leb n 65535 then n else 65535

abbrev pub timeout_attestation :
    {Sim : Type 0} → Env Sim → VerdictPipeline Sim → Run → Bytes → ℕ → CielAttestation
timeout_attestation env p run tx_hash slot =
    new_timeout tx_hash zero_hash slot (pubkey_bytes env.ed25519 p.signer) run.timestamp
      (min_u16 run.elapsed_ms)

unfoldable pub timeout_of :
    {Sim : Type 0} → Env Sim → VerdictPipeline Sim → Run → Bytes → ℕ → VerdictResponse
timeout_of env p run tx_hash slot =
    let signed =
      sign_attestation env.ed25519 env.borsh p.signer
        (timeout_attestation env p run tx_hash slot) in
    record {
      verdict = timeout;
      safety_score = pos 0;
      attestation_bytes = signed.0;
      signature_bytes = signed.1;
      slot = slot;
      tx_hash = tx_hash;
      checker_outputs_hash = zero_hash;
      checker_results = record { outputs = []; total_duration_ms = 0 };
      downgrade_reason = none;
      timing = record {
        total_ms = run.elapsed_ms;
        fork_sim_ms = 0;
        checkers_ms = 0;
        scoring_ms = 0;
        signing_ms = 0;
      };
    }

abbrev pub timeout_response :
    {Sim : Type 0}
    → Env Sim
    → VerdictPipeline Sim
    → Run
    → Result Bytes
    → Result Sim
    → Result VerdictResponse
timeout_response env p run (err e) fork = err e
timeout_response env p run (ok tx_hash) (err e) = err e
timeout_response env p run (ok tx_hash) (ok sim) =
    ok (timeout_of env p run tx_hash (env.pinned_slot sim))

unfoldable pub build_timeout_response :
    {Sim : Type 0} → Env Sim → VerdictPipeline Sim → Run → Transaction → Result VerdictResponse
build_timeout_response env p run tx =
    timeout_response env p run (compute_tx_hash env tx) (lock p.fork)

-- Approve becomes Warn while the state of the fork lags.
unfoldable pub downgrade : Option String → Verdict → Verdict
downgrade (some reason) approve = warn
downgrade _ v = v

abbrev pub raw_attestation :
    {Sim : Type 0}
    → Env Sim
    → VerdictPipeline Sim
    → Run
    → Bytes
    → ℕ
    → Option String
    → CheckerResults
    → CielAttestation
raw_attestation env p run tx_hash slot reason results =
    let score = compute_safety_score results in
    new tx_hash (downgrade reason (score_to_verdict score results)) (encode_score_u16 score) 0
      (checker_outputs_hash env.hash_lib results) slot (pubkey_bytes env.ed25519 p.signer)
      run.timestamp 0

-- Steps 5 to 10, on the results of the checkers, less the entry for the database's log.
unfoldable pub respond :
    {Sim : Type 0}
    → Env Sim
    → VerdictPipeline Sim
    → Run
    → Bytes
    → ℕ
    → Option String
    → CheckerResults
    → VerdictResponse
respond env p run tx_hash slot reason results =
    let score = compute_safety_score results in
    let signed =
      sign_attestation env.ed25519 env.borsh p.signer
        (raw_attestation env p run tx_hash slot reason results) in
    record {
      verdict = downgrade reason (score_to_verdict score results);
      safety_score = score;
      attestation_bytes = signed.0;
      signature_bytes = signed.1;
      slot = slot;
      tx_hash = tx_hash;
      checker_outputs_hash = checker_outputs_hash env.hash_lib results;
      checker_results = results;
      downgrade_reason = reason;
      timing = run.timing;
    }

abbrev pub context_of : SimulationTrace → Transaction → ℕ → CheckerContext
context_of trace tx slot = record {
  trace = trace;
  original_tx = tx;
  intent = none;
  slot = slot;
  known_programs = with_mainnet_defaults;
}

abbrev pub results_of :
    {Sim : Type 0} → VerdictPipeline Sim → Run → SimulationTrace → Transaction → ℕ → CheckerResults
results_of p run trace tx slot =
    run_checkers run.in_time run.checker_duration_ms (context_of trace tx slot) p.checkers

-- Steps 4 to 10. The checkers are the call's only await: the deadline passes there or not at all.
abbrev pub check_and_respond :
    {Sim : Type 0}
    → Env Sim
    → VerdictPipeline Sim
    → Run
    → Transaction
    → Bytes
    → ℕ
    → Option String
    → (String ⊎ SimulationTrace) × Sim
    → Result VerdictResponse × VerdictPipeline Sim
check_and_respond env p run tx tx_hash slot reason (inl e, sim) =
    (err (fork_sim e), record p { fork = record { poisoned = false; sim = sim } })
check_and_respond env p run tx tx_hash slot reason (inr trace, sim) =
    let q = record p { fork = record { poisoned = false; sim = sim } } in
    if run.deadline_passes
    then (build_timeout_response env q run tx, q)
    else (ok (respond env q run tx_hash slot reason (results_of q run trace tx slot)), q)

-- Step 3.
abbrev pub simulate :
    {Sim : Type 0}
    → Env Sim
    → VerdictPipeline Sim
    → Run
    → Transaction
    → Bytes
    → Option String
    → Result Sim
    → Result VerdictResponse × VerdictPipeline Sim
simulate env p run tx tx_hash reason (err e) = (err e, p)
simulate env p run tx tx_hash reason (ok sim) =
    check_and_respond env p run tx tx_hash (env.pinned_slot sim) reason
      (env.execute_transaction sim tx)

-- Step 2.
abbrev pub by_staleness :
    {Sim : Type 0}
    → Env Sim
    → VerdictPipeline Sim
    → Run
    → Transaction
    → Bytes
    → StalenessState
    → Result VerdictResponse × VerdictPipeline Sim
by_staleness env p run tx tx_hash StalenessState.fresh =
    simulate env p run tx tx_hash none (lock p.fork)
by_staleness env p run tx tx_hash StalenessState.warn =
    simulate env p run tx tx_hash (some "state_parity_degraded") (lock p.fork)
by_staleness env p run tx tx_hash StalenessState.timeout = (build_timeout_response env p run tx, p)

-- Step 1.
abbrev pub with_hash :
    {Sim : Type 0}
    → Env Sim
    → VerdictPipeline Sim
    → Run
    → Transaction
    → Result Bytes
    → Result VerdictResponse × VerdictPipeline Sim
with_hash env p run tx (err e) = (err e, p)
with_hash env p run tx (ok tx_hash) = by_staleness env p run tx tx_hash (state p.staleness run.now)

-- The response of one call, and the pipeline after it.
unfoldable pub evaluate_raw_tx :
    {Sim : Type 0}
    → Env Sim
    → VerdictPipeline Sim
    → Run
    → Transaction
    → Result VerdictResponse × VerdictPipeline Sim
evaluate_raw_tx env p run tx = with_hash env p run tx (compute_tx_hash env tx)

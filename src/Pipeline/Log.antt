-- ===== src/Pipeline/Log.antt =====
-- crates/ciel-pipeline/src/verdict_store.rs and step 9 of pipeline.rs: the entries that a call
-- hands to the verdict store, and the rows that the store makes of them.
pub mod Laws
use ciel_sol.Base.{
  ℕ, ◌%◌, ◌^◌, ◌≡◌, Bool, true, false, Option, none, some, List, [], ◌∷◌, String, if◌then◌else◌,
  first, ◌⊎◌, inl, inr,
}
use ciel_sol.Base.Int.{ℤ, pos}
use ciel_sol.Checkers.Types.{CheckerOutput, SimulationTrace, Transaction}
use ciel_sol.Checkers.Results.{all_completed, all_timed_out}
use ciel_sol.Checkers.Oracle.{to_signed}
use ciel_sol.Fork.Staleness.{StalenessState, state}
use ciel_sol.Signer.Attestation.{Bytes, Verdict, approve, warn, block, timeout}
use ciel_sol.Pipeline.Float.{F64}
use ciel_sol.Pipeline.Float.Single.{as_f32}
use ciel_sol.Pipeline.Capture.{Row}
use ciel_sol.Pipeline.Verdict.{
  Result, ok, err, VerdictResponse, Env, Run, VerdictPipeline, lock, compute_tx_hash, respond,
  results_of,
}

abbrev pub verdict_to_str : Verdict → String
verdict_to_str approve = "APPROVE"
verdict_to_str warn = "WARN"
verdict_to_str block = "BLOCK"
verdict_to_str timeout = "TIMEOUT"

pub record VerdictLogEntry : Type 0 where
  pub request_type : String
  pub tx_hash : Bytes
  pub tx_signature : Option Bytes
  pub verdict : String
  pub safety_score : Option F64
  pub optimality_score : Option F64
  pub attestation : Bytes
  pub signature : Bytes
  pub checker_outputs : List CheckerOutput
  pub checker_outputs_hash : Bytes
  pub checkers_timed_out : List String
  pub total_latency_ms : ℤ
  pub fork_sim_ms : Option ℤ
  pub checkers_ms : Option ℤ
  pub signing_ms : Option ℤ

-- `n as i32`
abbrev pub as_i32 : ℕ → ℤ
as_i32 n = to_signed 32 (n % 2 ^ 32)

-- The entry for a response, whose fields hold what the code reads from its locals.
unfoldable pub entry_of : Transaction → VerdictResponse → VerdictLogEntry
entry_of tx r = record {
  request_type = "raw_tx";
  tx_hash = r.tx_hash;
  tx_signature = first tx.signatures;
  verdict = verdict_to_str r.verdict;
  safety_score = some (as_f32 r.safety_score);
  optimality_score = some (pos 0);
  attestation = r.attestation_bytes;
  signature = r.signature_bytes;
  checker_outputs = all_completed r.checker_results;
  checker_outputs_hash = r.checker_outputs_hash;
  checkers_timed_out = all_timed_out r.checker_results;
  total_latency_ms = as_i32 r.timing.total_ms;
  fork_sim_ms = some (as_i32 r.timing.fork_sim_ms);
  checkers_ms = some (as_i32 r.timing.checkers_ms);
  signing_ms = some (as_i32 r.timing.signing_ms);
}

-- The columns that the capture reads, of the row that `INSERT` makes of an entry: the database
-- chooses the id and the time, and the outcome is NULL.
unfoldable pub insert_verdict : ℕ → ℕ → VerdictLogEntry → Row
insert_verdict id now e = record {
  id = id;
  verdict = e.verdict;
  tx_signature = e.tx_signature;
  execution_outcome = none;
  execution_slot = none;
  created_at = now;
}

module _ {Sim : Type 0} (env : Env Sim) (p : VerdictPipeline Sim) (run : Run)
    (tx : Transaction) where
  -- Steps 4 to 9, on what the simulation returns.
  abbrev pub entry_on_trace :
      Bytes → ℕ → Option String → String ⊎ SimulationTrace → List VerdictLogEntry
  entry_on_trace tx_hash slot reason (inl e) = []
  entry_on_trace tx_hash slot reason (inr trace) =
      if run.deadline_passes
      then []
      else entry_of tx (respond env p run tx_hash slot reason (results_of p run trace tx slot)) ∷ []

  -- Step 3.
  abbrev pub entry_on_fork : Bytes → Option String → Result Sim → List VerdictLogEntry
  entry_on_fork tx_hash reason (err e) = []
  entry_on_fork tx_hash reason (ok sim) =
      entry_on_trace tx_hash (env.pinned_slot sim) reason (env.execute_transaction sim tx).0

  -- Step 2: a call on stale state returns before it logs.
  abbrev pub entry_on_state : Bytes → StalenessState → List VerdictLogEntry
  entry_on_state tx_hash StalenessState.fresh = entry_on_fork tx_hash none (lock p.fork)
  entry_on_state tx_hash StalenessState.warn =
      entry_on_fork tx_hash (some "state_parity_degraded") (lock p.fork)
  entry_on_state tx_hash StalenessState.timeout = []

  -- Step 1.
  abbrev pub entry_on_hash : Result Bytes → List VerdictLogEntry
  entry_on_hash (err e) = []
  entry_on_hash (ok tx_hash) = entry_on_state tx_hash (state p.staleness run.now)

  -- What one call hands to `log_verdict`, where the pipeline has a database.
  unfoldable pub logged : Bool → List VerdictLogEntry
  logged has_db = if has_db then entry_on_hash (compute_tx_hash env tx) else []

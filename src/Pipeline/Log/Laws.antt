-- ===== src/Pipeline/Log/Laws.antt =====
-- What a call logs, and what the capture of outcomes makes of it.
use ciel_sol.Base.{
  ℕ, ◌≡◌, refl, Bool, true, false, Bool-cases, Option, none, some, List, [], ◌∷◌, String, map,
  first, any, length, if◌then◌else◌, arith, ◌⊎◌, inl, inr, ==_iff, ==_refl,
}
use ciel_sol.Checkers.Types.{SimulationTrace, Transaction}
use ciel_sol.Checkers.Results.{CheckerResults}
use ciel_sol.Checkers.Oracle.{to_signed}
use ciel_sol.Fork.Staleness.{StalenessState, state}
use ciel_sol.Signer.Attestation.{Bytes, Verdict, approve, warn, block, timeout}
use ciel_sol.Pipeline.Score.{compute_safety_score, score_to_verdict}
use ciel_sol.Pipeline.Capture.{
  landed, reverted, default_capture, Row, Services, Status, capture_cycle, fetch_pending_verdicts,
  pending_rows, is_pending, insert_by_time, capture_all, determine_outcome, update_verdict_outcome,
  set_outcome,
}
use ciel_sol.Pipeline.Verdict.{
  Result, ok, err, VerdictResponse, Env, Run, VerdictPipeline, lock, compute_tx_hash, timeout_of,
  timeout_response, build_timeout_response, respond, downgrade, results_of, check_and_respond,
  simulate, by_staleness, with_hash, evaluate_raw_tx,
}
use ciel_sol.Pipeline.Log.{
  VerdictLogEntry, entry_of, entry_on_trace, entry_on_fork, entry_on_state, entry_on_hash, logged,
  insert_verdict, verdict_to_str,
}

abbrev is_timeout : Verdict → Bool
is_timeout timeout = true
is_timeout _ = false

-- The entries that a result calls for: one for a response that is no TIMEOUT.
abbrev pub entries_for : Transaction → Result VerdictResponse → List VerdictLogEntry
entries_for tx (err e) = []
entries_for tx (ok r) = if is_timeout r.verdict then [] else entry_of tx r ∷ []

is_timeout-response :
    (reason : Option String) (c : CheckerResults)
    → is_timeout (downgrade reason (score_to_verdict (compute_safety_score c) c)) ≡ false
unfolding downgrade score_to_verdict
is_timeout-response reason c = ground arith

module _ {Sim : Type 0} (env : Env Sim) (run : Run) (tx : Transaction) where
  timed_out-none :
      (p : VerdictPipeline Sim) (hash : Result Bytes) (fork : Result Sim)
      → [] ≡ entries_for tx (timeout_response env p run hash fork)
  unfolding timeout_of
  timed_out-none p (err e) fork = refl
  timed_out-none p (ok h) (err e) = refl
  timed_out-none p (ok h) (ok sim) = refl

  traced-entries :
      (p : VerdictPipeline Sim) (tx_hash : Bytes) (slot : ℕ) (reason : Option String)
      (x : (String ⊎ SimulationTrace) × Sim)
      → entry_on_trace env p run tx tx_hash slot reason x.0
        ≡ entries_for tx (check_and_respond env p run tx tx_hash slot reason x).0
  unfolding respond build_timeout_response timeout_of
  traced-entries p tx_hash slot reason (inl e, sim) = refl
  traced-entries p tx_hash slot reason (inr trace, sim) = elim (Bool-cases run.deadline_passes) [
    | inl d ↦ rw d (
        timed_out-none (record p { fork = record { poisoned = false; sim = sim } })
          (compute_tx_hash env tx) (ok sim))
    | inr d ↦ rw (d, is_timeout-response reason (results_of p run trace tx slot)) refl
  ]

  fork-entries :
      (p : VerdictPipeline Sim) (tx_hash : Bytes) (reason : Option String) (fork : Result Sim)
      → entry_on_fork env p run tx tx_hash reason fork
        ≡ entries_for tx (simulate env p run tx tx_hash reason fork).0
  fork-entries p tx_hash reason (err e) = refl
  fork-entries p tx_hash reason (ok sim) =
      traced-entries p tx_hash (env.pinned_slot sim) reason (env.execute_transaction sim tx)

  state-entries :
      (p : VerdictPipeline Sim) (tx_hash : Bytes) (s : StalenessState)
      → entry_on_state env p run tx tx_hash s
        ≡ entries_for tx (by_staleness env p run tx tx_hash s).0
  unfolding build_timeout_response
  state-entries p tx_hash StalenessState.fresh = fork-entries p tx_hash none (lock p.fork)
  state-entries p tx_hash StalenessState.warn =
      fork-entries p tx_hash (some "state_parity_degraded") (lock p.fork)
  state-entries p tx_hash StalenessState.timeout =
      timed_out-none p (compute_tx_hash env tx) (lock p.fork)

  hash-entries :
      (p : VerdictPipeline Sim) (hash : Result Bytes)
      → entry_on_hash env p run tx hash ≡ entries_for tx (with_hash env p run tx hash).0
  hash-entries p (err e) = refl
  hash-entries p (ok h) = state-entries p h (state p.staleness run.now)

  -- With a database, a call of evaluate_raw_tx logs one entry, that of its response, if it returns
  -- a response whose verdict is not Timeout, and otherwise none.
  pub logged-entries_for :
      (p : VerdictPipeline Sim)
      → logged env p run tx true ≡ entries_for tx (evaluate_raw_tx env p run tx).0
  unfolding logged evaluate_raw_tx
  logged-entries_for p = hash-entries p (compute_tx_hash env tx)

-- The row of an approved verdict.
abbrev approved_row : ℕ → ℕ → List ℕ → Row
approved_row id now signature = record {
  id = id;
  verdict = "APPROVE";
  tx_signature = some signature;
  execution_outcome = none;
  execution_slot = none;
  created_at = now;
}

-- Its row once the provider knows the status of its transaction.
abbrev pub settled_row : ℕ → ℕ → List ℕ → Status → Row
settled_row id now signature status = record (approved_row id now signature) {
  execution_outcome = some (if status.failed then reverted else landed);
  execution_slot = some (to_signed 64 status.slot);
}

module _ (services : Services) (later id now : ℕ) (signature : List ℕ) (status : Status) where
  captured_row :
      length signature ≡ 64
      → services.fetch_failure ≡ none
      → services.get_status signature ≡ inr (some status)
      → services.update_failure id ≡ none
      → capture_cycle services default_capture later (approved_row id now signature ∷ [])
        ≡ (none, settled_row id now signature status ∷ [])
  unfolding capture_cycle fetch_pending_verdicts pending_rows insert_by_time capture_all
      determine_outcome update_verdict_outcome set_outcome
  captured_row l f g u = rw (f, (==_iff (length signature) 64).1 l, g, u, ==_refl id) refl

  inserted_row :
      (tx : Transaction) (r : VerdictResponse)
      → r.verdict ≡ approve
      → first tx.signatures ≡ some signature
      → map (insert_verdict id now) (entries_for tx (ok r)) ≡ approved_row id now signature ∷ []
  unfolding insert_verdict entry_of
  inserted_row tx r a k = rw (a, k) refl

  -- Where the database works and the provider knows the status of the transaction's first
  -- signature, of 64 bytes, a cycle of the capture on the row that a call answered with Approve
  -- logs sets it to landed or to reverted, as the status says, at the status's slot.
  pub logged-captured :
      {Sim : Type 0} (env : Env Sim) (p : VerdictPipeline Sim) (run : Run) (tx : Transaction)
      (r : VerdictResponse)
      → (evaluate_raw_tx env p run tx).0 ≡ ok r
      → r.verdict ≡ approve
      → first tx.signatures ≡ some signature
      → length signature ≡ 64
      → services.fetch_failure ≡ none
      → services.get_status signature ≡ inr (some status)
      → services.update_failure id ≡ none
      → capture_cycle services default_capture later
          (map (insert_verdict id now) (logged env p run tx true))
        ≡ (none, settled_row id now signature status ∷ [])
  logged-captured env p run tx r e a k l f g u =
      rw (logged-entries_for env run tx p, e, inserted_row tx r a k) (captured_row l f g u)

abbrev has_signature : Option (List ℕ) → Verdict → Bool
has_signature (some signature) approve = true
has_signature _ _ = false

pending_row :
    (id now : ℕ) (tx : Transaction) (r : VerdictResponse) (v : Verdict) (o : Option (List ℕ))
    → any is_pending (
        map (insert_verdict id now) (
          if is_timeout v
          then []
          else record (entry_of tx r) { verdict = verdict_to_str v; tx_signature = o } ∷ []))
      ≡ has_signature o v
unfolding insert_verdict entry_of
pending_row id now tx r approve none = refl
pending_row id now tx r approve (some s) = refl
pending_row id now tx r warn none = refl
pending_row id now tx r warn (some s) = refl
pending_row id now tx r block none = refl
pending_row id now tx r block (some s) = refl
pending_row id now tx r timeout none = refl
pending_row id now tx r timeout (some s) = refl

-- Of the row that a call logs, the capture of outcomes asks for the status exactly if the verdict
-- is Approve and the transaction has a first signature.
pub logged-is_pending :
    {Sim : Type 0} (env : Env Sim) (p : VerdictPipeline Sim) (run : Run) (tx : Transaction)
    (r : VerdictResponse) (id now : ℕ)
    → (evaluate_raw_tx env p run tx).0 ≡ ok r
    → any is_pending (map (insert_verdict id now) (logged env p run tx true))
      ≡ has_signature (first tx.signatures) r.verdict
unfolding insert_verdict entry_of
logged-is_pending env p run tx r id now e =
    rw (logged-entries_for env run tx p, e)
      (pending_row id now tx r r.verdict (first tx.signatures))

-- ===== src/Pipeline/Verdict/Outcome.antt =====
-- What a call returns.
use ciel_sol.Base.{
  ℕ, ◌≡◌, ◌≢◌, refl, true, false, Bool-cases, Option, none, some, String, ◌⊎◌, inl, inr, sym, subst,
  ap, arith,
}
use ciel_sol.Checkers.Types.{SimulationTrace, Transaction}
use ciel_sol.Fork.Staleness.{StalenessState, state}
use ciel_sol.Signer.Attestation.{Bytes}
use ciel_sol.Pipeline.Verdict.{
  Result, ok, err, VerdictResponse, Env, Run, Mutex, VerdictPipeline, lock, compute_tx_hash,
  timeout_of, timeout_response, build_timeout_response, respond, results_of, check_and_respond,
  simulate, by_staleness, with_hash, evaluate_raw_tx,
}

-- The reason that goes with a state of the fork.
abbrev pub reason_of : StalenessState → Option String
reason_of StalenessState.warn = some "state_parity_degraded"
reason_of _ = none

-- The responses of a call: a TIMEOUT where the fork is stale or the deadline passes, and otherwise
-- a verdict on what the checkers report of the simulation's trace.
pub data Outcome {Sim : Type 0} (env : Env Sim) (p : VerdictPipeline Sim) (run : Run)
    (tx : Transaction) : VerdictResponse → Type 0 where
  late :
      (tx_hash : Bytes) (slot : ℕ)
      → (state p.staleness run.now ≡ StalenessState.timeout) ⊎ (run.deadline_passes ≡ true)
      → Outcome env p run tx (timeout_of env p run tx_hash slot)
  judged :
      (tx_hash : Bytes) (slot : ℕ) (trace : SimulationTrace)
      → (env.execute_transaction p.fork.sim tx).0 ≡ inr trace
      → state p.staleness run.now ≢ StalenessState.timeout
      → run.deadline_passes ≡ false
      → Outcome env p run tx (
          respond env p run tx_hash slot
            (reason_of (state p.staleness run.now))
            (results_of p run trace tx slot))

module _ {Sim : Type 0} (env : Env Sim) where
  lock-sim : (m : Mutex Sim) (sim : Sim) → lock m ≡ ok sim → m.sim ≡ sim
  lock-sim m sim h = ground arith

  ok_of : (x y : VerdictResponse) → Result.ok x ≡ ok y → x ≡ y
  ok_of x y e = ap value e
    where
      value : Result VerdictResponse → VerdictResponse
      value (ok z) = z
      value (err _) = x

  module _ (p : VerdictPipeline Sim) (run : Run) (tx : Transaction) where
    late_response :
        (r : VerdictResponse) (m : Mutex Sim) (hash : Result Bytes) (fork : Result Sim)
        → (state p.staleness run.now ≡ StalenessState.timeout) ⊎ (run.deadline_passes ≡ true)
        → timeout_response env (record p { fork = m }) run hash fork ≡ ok r
        → Outcome env p run tx r
    unfolding timeout_of
    late_response r m (err e) fork h k = cc
    late_response r m (ok x) (err e) h k = cc
    late_response r m (ok x) (ok sim) h k =
        subst (Outcome env p run tx) (ok_of _ r k) (late x (env.pinned_slot sim) h)

    response_on_results :
        (r : VerdictResponse) (tx_hash : Bytes) (slot : ℕ) (trace : SimulationTrace) (m : Mutex Sim)
        → (env.execute_transaction p.fork.sim tx).0 ≡ inr trace
        → state p.staleness run.now ≢ StalenessState.timeout
        → run.deadline_passes ≡ false
        → respond env
            (record p { fork = m })
            run
            tx_hash
            slot
            (reason_of (state p.staleness run.now))
            (results_of p run trace tx slot)
          ≡ r
        → Outcome env p run tx r
    unfolding respond
    response_on_results r tx_hash slot trace m t h d k =
        subst (Outcome env p run tx) k (judged tx_hash slot trace t h d)

    simulated-Outcome :
        (r : VerdictResponse) (tx_hash : Bytes) (slot : ℕ) (reason : Option String)
        (x : (String ⊎ SimulationTrace) × Sim)
        → env.execute_transaction p.fork.sim tx ≡ x
        → state p.staleness run.now ≢ StalenessState.timeout
        → reason_of (state p.staleness run.now) ≡ reason
        → (check_and_respond env p run tx tx_hash slot reason x).0 ≡ ok r
        → Outcome env p run tx r
    unfolding build_timeout_response timeout_of respond
    simulated-Outcome r tx_hash slot reason (inl e, sim) t h q k = cc
    simulated-Outcome r tx_hash slot reason (inr trace, sim) t h q k =
        elim (Bool-cases run.deadline_passes) [
          | inl d ↦
              late_response r (record { poisoned = false; sim = sim }) (compute_tx_hash env tx)
                (ok sim) (inr d) (rw d at k)
          | inr d ↦
              response_on_results r tx_hash slot trace (record { poisoned = false; sim = sim })
                (ap (λ y. y.0) t) h d (ok_of _ r (rw (d, sym q) at k))
        ]

    run-Outcome :
        (r : VerdictResponse) (tx_hash : Bytes) (reason : Option String) (fork : Result Sim)
        → lock p.fork ≡ fork
        → state p.staleness run.now ≢ StalenessState.timeout
        → reason_of (state p.staleness run.now) ≡ reason
        → (simulate env p run tx tx_hash reason fork).0 ≡ ok r
        → Outcome env p run tx r
    run-Outcome r tx_hash reason (err e) m h q k = cc
    run-Outcome r tx_hash reason (ok sim) m h q k =
        simulated-Outcome r tx_hash (env.pinned_slot sim) reason (env.execute_transaction sim tx)
          (ap (λ s. env.execute_transaction s tx) (lock-sim p.fork sim m)) h q k

    stale-Outcome :
        (r : VerdictResponse) (tx_hash : Bytes) (s : StalenessState)
        → state p.staleness run.now ≡ s
        → (by_staleness env p run tx tx_hash s).0 ≡ ok r
        → Outcome env p run tx r
    unfolding build_timeout_response
    stale-Outcome r tx_hash StalenessState.fresh h k =
        run-Outcome r tx_hash none (lock p.fork) refl (λ e. cc) (rw h refl) k
    stale-Outcome r tx_hash StalenessState.warn h k =
        run-Outcome r tx_hash (some "state_parity_degraded") (lock p.fork) refl (λ e. cc)
          (rw h refl) k
    stale-Outcome r tx_hash StalenessState.timeout h k =
        late_response r p.fork (compute_tx_hash env tx) (lock p.fork) (inl h) k

    hashed-Outcome :
        (r : VerdictResponse) (hash : Result Bytes)
        → (with_hash env p run tx hash).0 ≡ ok r
        → Outcome env p run tx r
    hashed-Outcome r (err e) k = cc
    hashed-Outcome r (ok h) k = stale-Outcome r h (state p.staleness run.now) refl k

    -- Each response of a call is one of the two outcomes.
    pub evaluate_raw_tx-Outcome :
        (r : VerdictResponse) → (evaluate_raw_tx env p run tx).0 ≡ ok r → Outcome env p run tx r
    unfolding evaluate_raw_tx
    evaluate_raw_tx-Outcome r k = hashed-Outcome r (compute_tx_hash env tx) k

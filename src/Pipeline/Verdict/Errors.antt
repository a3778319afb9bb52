-- ===== src/Pipeline/Verdict/Errors.antt =====
-- When a call returns a response, and what it leaves of the pipeline.
use ciel_sol.Base.{◌≡◌, Bool, true, false, if◌then◌else◌, arith, ◌⊎◌, inl, inr, ◌&&◌, ◌||◌, not}
use ciel_sol.Checkers.Types.{Transaction}
use ciel_sol.Fork.Staleness.{StalenessState, state}
use ciel_sol.Pipeline.Verdict.{
  Result, ok, err, Env, Run, VerdictPipeline, build_timeout_response, evaluate_raw_tx,
}

abbrev pub is_ok : {A : Type 0} → Result A → Bool
is_ok (ok a) = true
is_ok (err e) = false

abbrev pub is_inr : {A B : Type 0} → A ⊎ B → Bool
is_inr (inl a) = false
is_inr (inr b) = true

abbrev pub is_stale : StalenessState → Bool
is_stale StalenessState.timeout = true
is_stale _ = false

module _ {Sim : Type 0} (env : Env Sim) (p : VerdictPipeline Sim) (run : Run)
    (tx : Transaction) where
  abbrev pub executed : Sim
  executed = (env.execute_transaction p.fork.sim tx).1

  -- A call returns a response exactly when the transaction serialises, the mutex is not poisoned,
  -- and either the fork's state is stale or the simulation succeeds; and it changes nothing of the
  -- pipeline but the fork, and that only by executing the transaction on it.
  pub evaluate_raw_tx-answers :
      (is_ok (evaluate_raw_tx env p run tx).0 ≡ (
        is_inr (env.serialize_tx tx)
        && (not p.fork.poisoned
            && (is_stale (state p.staleness run.now)
                || is_inr (env.execute_transaction p.fork.sim tx).0))))
      × ((evaluate_raw_tx env p run tx).1 ≡ (
          if is_inr (env.serialize_tx tx)
            && (not p.fork.poisoned && not (is_stale (state p.staleness run.now)))
          then record p { fork = record { poisoned = false; sim = executed } }
          else p))
  unfolding evaluate_raw_tx build_timeout_response
  evaluate_raw_tx-answers = ground arith

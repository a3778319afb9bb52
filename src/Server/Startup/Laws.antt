-- ===== src/Server/Startup/Laws.antt =====
-- What a server that has started answers.
use ciel_sol.Base.{
  ℕ, ◌-◌, ◌*◌, ◌≡◌, ◌≢◌, refl, Bool, true, false, Option, none, some, List, [], ◌∷◌, All, arith,
  ltb, if◌then◌else◌, inl, inr, ap, ◌∙◌,
}
use ciel_sol.Base.Int.{◌-ℤ◌}
use ciel_sol.Checkers.Results.{Checker, CheckerContext, run_checkers, run_one, collect, put}
use ciel_sol.Checkers.Stubs.{all_stub_checkers}
use ciel_sol.Checkers.Types.{Transaction}
use ciel_sol.Fork.Staleness.{StalenessState, state, new, record_update, time_since_last_update}
use ciel_sol.Signer.Attestation.{Verdict, approve, warn, timeout}
use ciel_sol.Signer.Keys.{Ed25519, CielSigner}
use ciel_sol.Pipeline.Float.{one, round, round53, sub, clamp}
use ciel_sol.Pipeline.Score.{compute_safety_score, score_to_verdict, subtract_all}
use ciel_sol.Pipeline.Verdict.{
  ok, VerdictResponse, Env, Run, VerdictPipeline, timeout_of, downgrade, respond, context_of,
  evaluate_raw_tx,
}
use ciel_sol.Pipeline.Verdict.Outcome.{Outcome, late, judged, evaluate_raw_tx-Outcome, reason_of}
use ciel_sol.Pipeline.Verdict.Errors.{evaluate_raw_tx-answers}
use ciel_sol.Server.Startup.{
  Startup, Server, is_offline, staleness_of, signer_of, new_pipeline, start_with, start, served,
}

module _ (in_time : Checker → Bool) (elapsed_ms : ℕ) (ctx : CheckerContext) where
  -- The seven placeholders, all in time, leave the score at 1.0 and the verdict at Approve.
  stubs-approve :
      All (λ c. in_time c ≡ true) all_stub_checkers
      → (compute_safety_score (run_checkers in_time elapsed_ms ctx all_stub_checkers) ≡ one)
        × (score_to_verdict one (run_checkers in_time elapsed_ms ctx all_stub_checkers) ≡ approve)
  unfolding run_checkers run_one collect put score_to_verdict compute_safety_score subtract_all sub
      round round53 clamp ◌-ℤ◌
  stubs-approve (a, (b, (c, (d, (e, (f, (g, u))))))) = rw (a, b, c, d, e, f, g) (refl, refl)

-- A pipeline that keeps the checkers and the tracker of a start.
abbrev Keeps : {Sim : Type 0} → VerdictPipeline Sim → VerdictPipeline Sim → Type 0
Keeps p q = (q.checkers ≡ p.checkers) × (q.staleness ≡ p.staleness)

module _ {Sim : Type 0} (env : Env Sim) where
  evaluate_raw_tx-Keeps :
      (p : VerdictPipeline Sim) (run : Run) (tx : Transaction)
      → Keeps p (evaluate_raw_tx env p run tx).1
  evaluate_raw_tx-Keeps p run tx = ground (arith, (evaluate_raw_tx-answers env p run tx).1)

  served-Keeps :
      (p : VerdictPipeline Sim) (calls : List (Run × Transaction)) → Keeps p (served env p calls)
  unfolding served
  served-Keeps p [] = (refl, refl)
  served-Keeps p ((run, tx) ∷ calls) =
      let rest = served-Keeps (evaluate_raw_tx env p run tx).1 calls in
      let here = evaluate_raw_tx-Keeps p run tx in (rest.0 ∙ here.0, rest.1 ∙ here.1)

  -- The verdict on fresh, lagging and stale state.
  abbrev verdict_in : StalenessState → Verdict
  verdict_in StalenessState.fresh = approve
  verdict_in StalenessState.warn = warn
  verdict_in StalenessState.timeout = timeout

  downgrade-reason_of :
      (s : StalenessState)
      → s ≢ StalenessState.timeout
      → downgrade (reason_of s) approve ≡ verdict_in s
  unfolding downgrade
  downgrade-reason_of StalenessState.fresh h = refl
  downgrade-reason_of StalenessState.warn h = refl
  downgrade-reason_of StalenessState.timeout h = absurd (h refl)

  module _ (p : VerdictPipeline Sim) (run : Run) (tx : Transaction)
      (stubs : p.checkers ≡ all_stub_checkers)
      (in_time : All (λ c. run.in_time c ≡ true) all_stub_checkers)
      (in_deadline : run.deadline_passes ≡ false) where
    Outcome-verdict :
        (r : VerdictResponse)
        → Outcome env p run tx r
        → r.verdict ≡ verdict_in (state p.staleness run.now)
    unfolding timeout_of respond
    Outcome-verdict _ (late h slot (inl x)) = rw x refl
    Outcome-verdict _ (late h slot (inr x)) = cc
    Outcome-verdict _ (judged h slot trace t n d) = rw stubs (
        let a =
          stubs-approve run.in_time run.checker_duration_ms (context_of trace tx slot) in_time in
        rw (a.0, a.1) (downgrade-reason_of (state p.staleness run.now) n))

abbrev KeepsStart : {Sim : Type 0} → Startup Sim → Server Sim → Type 0
KeepsStart s server =
    (server.pipeline.checkers ≡ all_stub_checkers) × (server.pipeline.staleness ≡ staleness_of s)

-- The verdict that a number of nanoseconds after the start gives.
abbrev pub verdict_after : Bool → ℕ → Verdict
verdict_after offline elapsed =
    if ltb (if offline then 7200 * 1000000000 else 10 * 1000000000) elapsed
    then timeout
    else if ltb (if offline then 3600 * 1000000000 else 3 * 1000000000) elapsed
    then warn
    else approve

module _ {Sim : Type 0} (lib : Ed25519) (s : Startup Sim) where
  started_eq : (x y : Server Sim) → some x ≡ some y → x ≡ y
  started_eq x y e = ap value e
    where
      value : Option (Server Sim) → Server Sim
      value none = x
      value (some z) = z

  started-Keeps :
      (server : Server Sim) (signer : Option CielSigner)
      → start_with s signer ≡ some server
      → KeepsStart s server
  unfolding new_pipeline
  started-Keeps server none h = cc
  started-Keeps server (some signer) h = let q = started_eq _ server h in rw⁻¹ q (refl, refl)

  staleness_of-verdict :
      (env : Env Sim) (now : ℕ)
      → verdict_in env (state (staleness_of s) now) ≡ verdict_after (is_offline s) (now - s.now)
  unfolding state staleness_of record_update new time_since_last_update
  staleness_of-verdict env now = ground arith

  -- A server as `main` builds it answers each transaction, after any calls before it, with a
  -- verdict that depends on the time since the start alone: Approve for three seconds, then Warn,
  -- and after ten seconds Timeout; for one hour and after two hours where no key of the provider is
  -- set. That holds of each response of a call whose deadline does not pass and whose placeholders
  -- all end in time.
  pub served-verdict :
      (server : Server Sim) (env : Env Sim) (calls : List (Run × Transaction)) (run : Run)
      (tx : Transaction) (r : VerdictResponse)
      → start lib s ≡ some server
      → All (λ c. run.in_time c ≡ true) all_stub_checkers
      → run.deadline_passes ≡ false
      → (evaluate_raw_tx env (served env server.pipeline calls) run tx).0 ≡ ok r
      → r.verdict ≡ verdict_after (is_offline s) (run.now - s.now)
  unfolding start
  served-verdict server env calls run tx r h t d e =
      let p = served env server.pipeline calls in
      let k = started-Keeps server (signer_of lib s s.signing_key_path) h in
      let q = served-Keeps env server.pipeline calls in
      Outcome-verdict env p run tx (q.0 ∙ k.0) t d r (evaluate_raw_tx-Outcome env p run tx r e)
      ∙ ap (λ x. verdict_in env (state x run.now)) (q.1 ∙ k.1)
      ∙ staleness_of-verdict env run.now

-- ===== src/Pipeline/Verdict/Handoff.antt =====
-- The pipeline with the executor of executor.rs and the authority checker in its fan-out.
use ciel_sol.Base.{
  ℕ, suc, ◌≤◌, ◌≡◌, ◌≢◌, true, false, some, List, str_eq, get_elem?, drop, All, is_some, arith, inr,
  Bool, [], ◌∷◌, zero, map, ◌==◌,
}
use ciel_sol.Checkers.Types.{SimulationTrace, Transaction, CompiledInstruction, severity_u8}
use ciel_sol.Checkers.Registry.{is_known_protocol, with_mainnet_defaults, squads_v4_program_id}
use ciel_sol.Checkers.Results.{Checker, completed, all_completed, lookup}
use ciel_sol.Checkers.Results.Runner.{lookup-run_checkers, All-lookup}
use ciel_sol.Checkers.Authority.Check.{check}
use ciel_sol.Checkers.Authority.Handoff.{squads_handoff_high}
use ciel_sol.Fork.Executor.{Vm, execute_transaction}
use ciel_sol.Fork.Executor.Calls.{key_at, call_of}
use ciel_sol.Fork.Executor.Laws.{get_elem?-cpi_graph}
use ciel_sol.Signer.Attestation.{approve}
use ciel_sol.Pipeline.Score.Laws.{IsMild}
use ciel_sol.Pipeline.Verdict.{
  ok, VerdictResponse, Env, Run, VerdictPipeline, evaluate_raw_tx, results_of, context_of, respond,
  timeout_of,
}
use ciel_sol.Pipeline.Verdict.Outcome.{Outcome, late, judged, evaluate_raw_tx-Outcome}
use ciel_sol.Pipeline.Verdict.Laws.{approve_is_safe}

-- The authority checker, as the fan-out takes it.
abbrev pub authority_checker : (ℕ → Bool) → Checker
authority_checker is_alphanumeric = record {
  name = "authority_diff";
  check = check is_alphanumeric;
}

-- The environment's fork runs executor.rs on its LiteSVM.
abbrev pub with_executor : {Svm V3 : Type 0} → Env Svm → Vm Svm V3 → Env Svm
with_executor env vm = record env {
  execute_transaction = λ svm tx. (execute_transaction vm svm tx, svm);
}

==_false : (a b : ℕ) → (a == b) ≡ false → a ≢ b
==_false a b h = ground arith

get_elem?-map :
    {A B : Type 0} (f : A → B) (xs : List A) (j : ℕ) (a : A)
    → get_elem? xs j ≡ some a
    → get_elem? (map f xs) j ≡ some (f a)
get_elem?-map f [] j a h = cc
get_elem?-map f (x ∷ xs) zero a h = ground arith
get_elem?-map f (x ∷ xs) (suc j) a h = get_elem?-map f xs j a h

-- An instruction that hands a registered program other than Squads to Squads, at an index of its
-- accounts.
pub record IsHandoff (tx : Transaction) (i j a : ℕ) (ix : CompiledInstruction) : Type 0 where
  pub instruction : get_elem? tx.instructions i ≡ some ix
  pub calls_squads : key_at tx.account_keys ix.program_id_index ≡ squads_v4_program_id
  pub account : get_elem? ix.accounts j ≡ some a
  pub is_other : (key_at tx.account_keys a == squads_v4_program_id) ≡ false
  pub is_registered :
      is_some (is_known_protocol with_mainnet_defaults (key_at tx.account_keys a)) ≡ true

-- The authority checker is one of a list, ends in time, and no later checker has its name.
pub record RunsAuthority (is_alphanumeric : ℕ → Bool) (in_time : Checker → Bool)
    (checkers : List Checker) (n : ℕ) : Type 0 where
  pub listed : get_elem? checkers n ≡ some (authority_checker is_alphanumeric)
  pub later : All (λ d. str_eq d.name "authority_diff" ≡ false) (drop (suc n) checkers)
  pub ends_in_time : in_time (authority_checker is_alphanumeric) ≡ true

module _ (is_alphanumeric : ℕ → Bool) {Svm V3 : Type 0} (base : Env Svm) (vm : Vm Svm V3)
    (p : VerdictPipeline Svm) (run : Run) (tx : Transaction) where
  severe_output :
      (trace : SimulationTrace) (slot n i j a : ℕ) (ix : CompiledInstruction)
      → RunsAuthority is_alphanumeric run.in_time p.checkers n
      → IsHandoff tx i j a ix
      → execute_transaction vm p.fork.sim tx ≡ inr trace
      → 3 ≤ severity_u8 (check is_alphanumeric (context_of trace tx slot)).severity
  severe_output trace slot n i j a ix h f t =
      squads_handoff_high is_alphanumeric (context_of trace tx slot) i j
        (call_of tx.account_keys i 1 ix) (key_at tx.account_keys a)
        (get_elem?-cpi_graph vm p.fork.sim tx trace i ix t f.instruction) f.calls_squads
        (get_elem?-map (key_at tx.account_keys) ix.accounts j a f.account)
        (==_false (key_at tx.account_keys a) squads_v4_program_id f.is_other) f.is_registered

  completed_output :
      (trace : SimulationTrace) (slot n : ℕ)
      → RunsAuthority is_alphanumeric run.in_time p.checkers n
      → lookup (results_of p run trace tx slot).outputs "authority_diff"
        ≡ some (completed (check is_alphanumeric (context_of trace tx slot)))
  completed_output trace slot n h = rw h.ends_in_time at (
      lookup-run_checkers run.in_time (context_of trace tx slot) run.checker_duration_ms p.checkers
        n (authority_checker is_alphanumeric) h.listed h.later)

  judged_handoff :
      (r : VerdictResponse) (n i j a : ℕ) (ix : CompiledInstruction)
      → RunsAuthority is_alphanumeric run.in_time p.checkers n
      → IsHandoff tx i j a ix
      → Outcome (with_executor base vm) p run tx r
      → All IsMild (all_completed r.checker_results)
      → r.verdict ≢ approve
  unfolding timeout_of respond
  judged_handoff r n i j a ix h f (late hash slot _) m e = cc
  judged_handoff r n i j a ix h f (judged hash slot trace t _ _) m e =
      let mild : IsMild (check is_alphanumeric (context_of trace tx slot)) =
        All-lookup IsMild (results_of p run trace tx slot).outputs "authority_diff"
          (check is_alphanumeric (context_of trace tx slot)) (completed_output trace slot n h) m in
      let severe = severe_output trace slot n i j a ix h f t in omega (arith, mild, severe)

  -- Where the authority checker runs and ends in time, a transaction with an instruction that hands
  -- a registered program to Squads is never answered Approve.
  pub handoff-not_approved :
      (r : VerdictResponse) (n i j a : ℕ) (ix : CompiledInstruction)
      → RunsAuthority is_alphanumeric run.in_time p.checkers n
      → IsHandoff tx i j a ix
      → (evaluate_raw_tx (with_executor base vm) p run tx).0 ≡ ok r
      → r.verdict ≢ approve
  handoff-not_approved r n i j a ix h f e v =
      let env = with_executor base vm in
      judged_handoff r n i j a ix h f (evaluate_raw_tx-Outcome env p run tx r e)
        (approve_is_safe env p run tx r e v).3 v

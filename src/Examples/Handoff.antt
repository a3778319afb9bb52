-- ===== src/Examples/Handoff.antt =====
-- The executor, and the pipeline on it.
use ciel_sol.Base.{
  ℕ, ◌≡◌, ◌≢◌, refl, false, none, some, [], ◌∷◌, List, inr, arith, replicate, ◌==◌, if◌then◌else◌,
}
use ciel_sol.Base.Assoc.{find}
use ciel_sol.Checkers.Types.{Transaction, CompiledInstruction, SimulationTrace, IntentSpec}
use ciel_sol.Checkers.Registry.{
  squads_v4_program_id, drift_v2_program_id, with_mainnet_defaults, is_known_protocol,
  find as find_protocol, put, register, new,
}
use ciel_sol.Checkers.Intent.Verify.{verify_spec}
use ciel_sol.Fork.Account.{Account}
use ciel_sol.Fork.Staleness.{default_config, state, time_since_last_update}
use ciel_sol.Fork.Executor.{Vm, Meta, finished, trace_of, execute_transaction}
use ciel_sol.Fork.Executor.Laws.{IsKeyed}
use ciel_sol.Fork.Executor.Swaps.{executed_swap_fails}
use ciel_sol.Signer.Attestation.{approve}
use ciel_sol.Pipeline.Verdict.{
  ok, VerdictPipeline, VerdictResponse, evaluate_raw_tx, respond, results_of,
}
use ciel_sol.Pipeline.Verdict.Handoff.{
  authority_checker, with_executor, IsHandoff, RunsAuthority, handoff-not_approved,
}
use ciel_sol.Examples.Data.{alphanumeric}
use ciel_sol.Examples.Calls.{env, run}
use ciel_sol.Examples.Wire.Keys.{signer}

-- Squads is called with Drift among the accounts.
abbrev handing : CompiledInstruction
handing = record { program_id_index = 2; accounts = 0 ∷ 1 ∷ []; bytes = 1 ∷ [] }

abbrev transaction : Transaction
transaction = record {
  signatures = [];
  account_keys = 9 ∷ drift_v2_program_id ∷ squads_v4_program_id ∷ [];
  instructions = handing ∷ [];
}

abbrev holding : ℕ → Account
holding n = record { lamports = n; bytes = []; owner = 0; executable = false; rent_epoch = 0 }

abbrev info : Meta
info = record { inner_instructions = []; logs = []; compute_units_consumed = 900; fee = 5000 }

-- A machine on which account 9 goes from 70 to 50 lamports.
abbrev vm : Vm ℕ ℕ
vm = record {
  get_account = λ slot k. if k == 9 then some (holding 70) else none;
  convert = λ tx. inr 0;
  simulate_transaction = λ slot v3. finished ((9, holding 50) ∷ []) info;
}

abbrev pipeline : VerdictPipeline ℕ
pipeline = record {
  fork = record { poisoned = false; sim = 350 };
  checkers = authority_checker alphanumeric ∷ [];
  signer = signer;
  staleness = record { last_update = 0; last_slot = 350; config = default_config };
}

abbrev trace : SimulationTrace
trace = trace_of vm 350 transaction (finished ((9, holding 50) ∷ []) info)

abbrev reply : VerdictResponse
reply =
    respond (with_executor env vm) pipeline run (replicate 32 7) 350 none
      (results_of pipeline run trace transaction 350)

replied : (evaluate_raw_tx (with_executor env vm) pipeline run transaction).0 ≡ ok reply
unfolding evaluate_raw_tx state time_since_last_update execute_transaction
replied = refl

is_handoff : IsHandoff transaction 0 1 1 handing
unfolding is_known_protocol with_mainnet_defaults find_protocol put register new
is_handoff = record {
  instruction = refl;
  calls_squads = refl;
  account = refl;
  is_other = refl;
  is_registered = refl;
}

runs : RunsAuthority alphanumeric run.in_time pipeline.checkers 0
runs = record { listed = refl; later = tt; ends_in_time = refl }

handoff-not_approved_example : reply.verdict ≢ approve
handoff-not_approved_example =
    handoff-not_approved alphanumeric env vm pipeline run transaction reply 0 0 1 1 handing runs
      is_handoff replied

abbrev posted : List (ℕ × Account)
posted = (9, holding 50) ∷ []

keyed : IsKeyed posted
unfolding find
keyed = (refl, tt)

found : find posted 9 ≡ some (holding 50)
unfolding find
found = refl

executed : execute_transaction vm 350 transaction ≡ inr trace
unfolding execute_transaction
executed = refl

executed_swap_fails_example : (verify_spec trace (IntentSpec.swap 20 9 5 none) []).passed ≡ false
executed_swap_fails_example =
    executed_swap_fails vm 350 transaction trace 20 9 5 none [] executed (λ e. omega arith)

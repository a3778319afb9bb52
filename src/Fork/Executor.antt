-- ===== src/Fork/Executor.antt =====
-- crates/ciel-fork/src/executor.rs: the trace of a simulated transaction. LiteSVM and bincode are a
-- parameter; a snapshot is a map from keys, and a public key that is missing is the default one.
pub mod Changes
pub mod Calls
pub mod Oracles
pub mod Laws
pub mod Reads
pub mod Swaps
use ciel_sol.Base.{
  ℕ, suc, Bool, true, false, Option, none, some, List, [], ◌∷◌, ◌++◌, String, ◌⊎◌, inl, inr,
}
use ciel_sol.Base.Int.{ℤ}
use ciel_sol.Checkers.Json.{Pubkey}
use ciel_sol.Checkers.Types.{SimulationTrace, Transaction, AccountChange}
use ciel_sol.Fork.Account.{Account}
use ciel_sol.Fork.Executor.Changes.{
  snapshot_accounts, compute_balance_deltas, compute_account_changes,
}
use ciel_sol.Fork.Executor.Calls.{InnerInstruction, extract_cpi_graph, detect_token_approvals}
use ciel_sol.Fork.Executor.Oracles.{detect_oracle_reads}

-- The metadata of a run.
pub record Meta : Type 0 where
  pub inner_instructions : List (List InnerInstruction)
  pub logs : List String
  pub compute_units_consumed : ℕ
  pub fee : ℕ

pub data Simulation : Type 0 where
  finished : List (Pubkey × Account) → Meta → Simulation
  failed : String → Meta → Simulation

-- LiteSVM, and bincode into its version of a transaction.
pub record Vm (Svm V3 : Type 0) : Type 0 where
  pub get_account : Svm → Pubkey → Option Account
  pub convert : Transaction → String ⊎ V3
  pub simulate_transaction : Svm → V3 → Simulation

module _ {Svm V3 : Type 0} (vm : Vm Svm V3) where
  -- The two arms of the match on the result of the simulation.
  unfoldable pub trace_of : Svm → Transaction → Simulation → SimulationTrace
  trace_of svm tx (finished post_accounts info) =
      let pre_state = snapshot_accounts (vm.get_account svm) tx.account_keys in
      record {
        success = true;
        error = none;
        balance_deltas = compute_balance_deltas pre_state post_accounts;
        cpi_graph = extract_cpi_graph tx info.inner_instructions tx.account_keys;
        account_changes = compute_account_changes pre_state post_accounts;
        logs = info.logs;
        oracle_reads = detect_oracle_reads tx info.logs;
        token_approvals = detect_token_approvals tx;
        token_balance_deltas = [];
        compute_units_consumed = info.compute_units_consumed;
        fee = info.fee;
      }
  trace_of svm tx (failed error info) = record {
    success = false;
    error = some error;
    balance_deltas = [];
    cpi_graph = extract_cpi_graph tx info.inner_instructions tx.account_keys;
    account_changes = [];
    logs = info.logs;
    oracle_reads = detect_oracle_reads tx info.logs;
    token_approvals = detect_token_approvals tx;
    token_balance_deltas = [];
    compute_units_consumed = info.compute_units_consumed;
    fee = info.fee;
  }

  abbrev pub execute_on : Svm → Transaction → String ⊎ V3 → String ⊎ SimulationTrace
  execute_on svm tx (inl e) = inl e
  execute_on svm tx (inr v3) = inr (trace_of svm tx (vm.simulate_transaction svm v3))

  -- The simulation is readonly: it leaves the fork as it was.
  unfoldable pub execute_transaction : Svm → Transaction → String ⊎ SimulationTrace
  unfolding trace_of
  execute_transaction svm tx = execute_on svm tx (vm.convert tx)

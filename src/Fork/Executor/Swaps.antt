-- ===== src/Fork/Executor/Swaps.antt =====
-- The intent checker on the traces of the executor.
use ciel_sol.Base.{ℕ, ◌≡◌, refl, ◌≢◌, false, Option, [], inr, arith, subst}
use ciel_sol.Base.Int.{pos}
use ciel_sol.Checkers.Json.{Pubkey, Text}
use ciel_sol.Checkers.Types.{SimulationTrace, Transaction, IntentSpec}
use ciel_sol.Checkers.Intent.Rules.{wsol_mint}
use ciel_sol.Checkers.Intent.Verify.{
  sum_mint_delta, token_sum, verify_spec, verify_swap, passed_noop, failed,
}
use ciel_sol.Fork.Executor.{Vm, Simulation, finished, trace_of, execute_transaction}
use ciel_sol.Fork.Executor.Laws.{execute_transaction-ran}

sum_mint_delta-no_tokens :
    (trace : SimulationTrace) (mint : Pubkey)
    → trace.token_balance_deltas ≡ []
    → mint ≢ wsol_mint
    → sum_mint_delta trace mint ≡ pos 0
unfolding sum_mint_delta token_sum
sum_mint_delta-no_tokens trace mint e n = ground (arith, e)

verify_swap-nothing_out :
    (trace : SimulationTrace) (a : ℕ) (i o : Pubkey) (min : Option ℕ) (d : Text)
    → sum_mint_delta trace o ≡ pos 0
    → (verify_spec trace (IntentSpec.swap a i o min) d).passed ≡ false
unfolding verify_spec verify_swap passed_noop failed
verify_swap-nothing_out trace a i o min d e = rw e (ground arith)

module _ {Svm V3 : Type 0} (vm : Vm Svm V3) (svm : Svm) (tx : Transaction) where
  no_tokens : (sim : Simulation) → (trace_of vm svm tx sim).token_balance_deltas ≡ []
  unfolding trace_of
  no_tokens (finished post info) = refl
  no_tokens (Simulation.failed error info) = refl

  -- The executor records no token balance: on each trace of it, a structured swap into a mint other
  -- than wrapped SOL fails, whatever the transaction did.
  pub executed_swap_fails :
      (trace : SimulationTrace) (a : ℕ) (i o : Pubkey) (min : Option ℕ) (d : Text)
      → execute_transaction vm svm tx ≡ inr trace
      → o ≢ wsol_mint
      → (verify_spec trace (IntentSpec.swap a i o min) d).passed ≡ false
  executed_swap_fails trace a i o min d e n =
      let (sim, ran) = execute_transaction-ran vm svm tx trace e in
      verify_swap-nothing_out trace a i o min d (
        sum_mint_delta-no_tokens trace o
          (subst (λ t. t.token_balance_deltas ≡ []) ran (no_tokens sim)) n)

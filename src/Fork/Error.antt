-- ===== src/Fork/Error.antt =====
-- crates/ciel-fork/src/lib.rs: the errors of the fork.
use ciel_sol.Base.{String}
use ciel_sol.Checkers.Json.{Pubkey}

pub data ForkError : Type 0 where
  rpc : String → ForkError
  account_not_found : Pubkey → ForkError
  lite_svm : String → ForkError
  circuit_open : ForkError
  config : String → ForkError
  timeout : ForkError
  all_providers_down : ForkError
  geyser : String → ForkError

-- ===== src/Examples/Data.antt =====
-- Inputs for the examples.
use ciel_sol.Base.{ℕ, Bool, true, none, List, [], ◌∷◌, leb, ◌&&◌, ◌||◌, replicate, String}
use ciel_sol.Checkers.Types.{
  SimulationTrace, Transaction, CpiCall, TokenBalanceDelta, Severity, CheckerOutput,
}
use ciel_sol.Checkers.Registry.{
  spl_token_program_id, squads_v4_program_id, with_mainnet_defaults, drift_v2_program_id,
}
use ciel_sol.Checkers.Results.{CheckerContext, Checker}

abbrev pub alphanumeric : ℕ → Bool
alphanumeric c = (leb 48 c && leb c 57) || ((leb 65 c && leb c 90) || (leb 97 c && leb c 122))

-- An unlimited approval of account 5 for the unknown delegate 6.
abbrev pub approval : CpiCall
approval = record {
  program_id = spl_token_program_id;
  instruction_index = 0;
  stack_height = 1;
  accounts = 5 ∷ 6 ∷ 7 ∷ [];
  bytes = 4 ∷ replicate 8 255;
}

abbrev pub revocation : CpiCall
revocation = record {
  program_id = spl_token_program_id;
  instruction_index = 1;
  stack_height = 1;
  accounts = 5 ∷ 7 ∷ [];
  bytes = 5 ∷ [];
}

-- A call of Squads that names Drift.
abbrev pub handoff : CpiCall
handoff = record {
  program_id = squads_v4_program_id;
  instruction_index = 2;
  stack_height = 3;
  accounts = 8 ∷ drift_v2_program_id ∷ [];
  bytes = 1 ∷ [];
}

abbrev pub trace_of : List CpiCall → List TokenBalanceDelta → SimulationTrace
trace_of calls deltas = record {
  success = true;
  error = none;
  balance_deltas = [];
  cpi_graph = calls;
  account_changes = [];
  logs = [];
  oracle_reads = [];
  token_approvals = [];
  token_balance_deltas = deltas;
  compute_units_consumed = 0;
  fee = 5000;
}

abbrev pub transaction : Transaction
transaction = record { signatures = []; account_keys = []; instructions = [] }

abbrev pub context : CheckerContext
context = record {
  trace = trace_of (approval ∷ revocation ∷ handoff ∷ []) [];
  original_tx = transaction;
  intent = none;
  slot = 350;
  known_programs = with_mainnet_defaults;
}

abbrev pub output : String → Severity → CheckerOutput
output name severity = record {
  checker_name = name;
  passed = true;
  severity = severity;
  flags = [];
  details = [];
}

abbrev pub checker : String → Severity → Checker
checker name severity = record { name = name; check = λ ctx. output name severity }

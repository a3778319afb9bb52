-- ===== src/Checkers/Results.antt =====
-- crates/ciel-checkers/src/traits.rs: the statuses of one fan-out, and runner.rs, which collects
-- them. Which checkers end before their deadline is the environment's choice.
pub mod Runner
use ciel_sol.Base.{
  ℕ, Bool, true, false, Option, none, some, List, [], ◌∷◌, String, str_eq, if◌then◌else◌, any, map,
}
use ciel_sol.Checkers.Types.{CheckerOutput, SimulationTrace, Transaction, Intent}
use ciel_sol.Checkers.Registry.{ProgramRegistry}

pub data CheckerStatus : Type 0 where
  completed : CheckerOutput → CheckerStatus
  timed_out : CheckerStatus

-- `outputs` lists the entries of the hash map in the order of its iteration.
pub record CheckerResults : Type 0 where
  pub outputs : List (String × CheckerStatus)
  pub total_duration_ms : ℕ

abbrev pub completed_outputs : List (String × CheckerStatus) → List CheckerOutput
completed_outputs [] = []
completed_outputs ((n, completed o) ∷ m) = o ∷ completed_outputs m
completed_outputs ((n, timed_out) ∷ m) = completed_outputs m

-- `CheckerResults::completed`
abbrev pub all_completed : CheckerResults → List CheckerOutput
all_completed r = completed_outputs r.outputs

abbrev pub names_timed_out : List (String × CheckerStatus) → List String
names_timed_out [] = []
names_timed_out ((n, completed o) ∷ m) = names_timed_out m
names_timed_out ((n, timed_out) ∷ m) = n ∷ names_timed_out m

-- `CheckerResults::timed_out`
abbrev pub all_timed_out : CheckerResults → List String
all_timed_out r = names_timed_out r.outputs

abbrev pub is_timed_out : String × CheckerStatus → Bool
is_timed_out (n, completed o) = false
is_timed_out (n, timed_out) = true

-- `CheckerResults::has_timeouts`
abbrev pub has_timeouts : CheckerResults → Bool
has_timeouts r = any is_timed_out r.outputs

-- The fields of `CheckerContext`, less the oracle cache.
pub record CheckerContext : Type 0 where
  pub trace : SimulationTrace
  pub original_tx : Transaction
  pub intent : Option Intent
  pub slot : ℕ
  pub known_programs : ProgramRegistry

-- `dyn Checker`
pub record Checker : Type 0 where
  pub name : String
  pub check : CheckerContext → CheckerOutput

-- One future of the fan-out: `in_time` says whether it is ready before its timeout.
unfoldable pub run_one : (Checker → Bool) → CheckerContext → Checker → String × CheckerStatus
run_one in_time ctx c = if in_time c then (c.name, completed (c.check ctx)) else (c.name, timed_out)

-- `insert` of the hash map into which `collect` gathers the pairs.
unfoldable pub put :
    List (String × CheckerStatus) → String × CheckerStatus → List (String × CheckerStatus)
put [] e = e ∷ []
put (d ∷ m) e = if str_eq d.0 e.0 then e ∷ m else d ∷ put m e

unfoldable pub collect :
    List (String × CheckerStatus) → List (String × CheckerStatus) → List (String × CheckerStatus)
unfolding put
collect m [] = m
collect m (e ∷ es) = collect (put m e) es

unfoldable pub run_checkers : (Checker → Bool) → ℕ → CheckerContext → List Checker → CheckerResults
unfolding run_one collect
run_checkers in_time elapsed_ms ctx checkers = record {
  outputs = collect [] (map (run_one in_time ctx) checkers);
  total_duration_ms = elapsed_ms;
}

unfoldable pub lookup : List (String × CheckerStatus) → String → Option CheckerStatus
lookup [] k = none
lookup ((j, v) ∷ m) k = if str_eq j k then some v else lookup m k

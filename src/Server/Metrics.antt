-- ===== src/Server/Metrics.antt =====
-- crates/ciel-server/src/metrics.rs: what one response records, as the list of the events that the
-- recorder receives in order.
use ciel_sol.Base.{ℕ, Bool, List, [], ◌∷◌, String, if◌then◌else◌}
use ciel_sol.Checkers.Results.{CheckerStatus, completed, timed_out}
use ciel_sol.Signer.Attestation.{Verdict, approve, warn, block, timeout}
use ciel_sol.Pipeline.Verdict.{VerdictResponse}

-- A metric's name is the constructor's, its labels are the arguments; a counter goes up by one, and
-- a histogram receives a number of milliseconds.
pub data Event : Type 0 where
  ciel_verdict_total : (verdict input_type : String) → Event
  ciel_verdict_latency_ms : (stage : String) (value : ℕ) → Event
  ciel_checker_result : (checker passed timed_out : String) → Event

-- `verdict_to_str(v).to_lowercase()`
abbrev lowercase : Verdict → String
lowercase approve = "approve"
lowercase warn = "warn"
lowercase block = "block"
lowercase timeout = "timeout"

abbrev bool_to_string : Bool → String
bool_to_string b = if b then "true" else "false"

-- The loop over the results of the checkers.
unfoldable pub checker_events : List (String × CheckerStatus) → List Event
checker_events [] = []
checker_events ((name, completed output) ∷ m) =
    ciel_checker_result name (bool_to_string output.passed) "false" ∷ checker_events m
checker_events ((name, timed_out) ∷ m) = ciel_checker_result name "false" "true" ∷ checker_events m

unfoldable pub record_verdict : VerdictResponse → String → List Event
record_verdict r input_type =
    ciel_verdict_total (lowercase r.verdict) input_type
    ∷ ciel_verdict_latency_ms "total" r.timing.total_ms
    ∷ ciel_verdict_latency_ms "fork_sim" r.timing.fork_sim_ms
    ∷ ciel_verdict_latency_ms "checkers" r.timing.checkers_ms
    ∷ ciel_verdict_latency_ms "scoring" r.timing.scoring_ms
    ∷ ciel_verdict_latency_ms "signing" r.timing.signing_ms
    ∷ checker_events r.checker_results.outputs

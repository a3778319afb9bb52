-- ===== src/Checkers/Stubs.antt =====
-- crates/ciel-checkers/src/stubs.rs: the placeholders for the checkers.
use ciel_sol.Base.{true, List, [], ◌∷◌, String}
use ciel_sol.Checkers.Json.{lit}
use ciel_sol.Checkers.Types.{Severity}
use ciel_sol.Checkers.Results.{Checker}

-- The macro: a checker that always passes.
abbrev pub stub_checker : String → Checker
stub_checker checker_name = record {
  name = checker_name;
  check = λ ctx. record {
    checker_name = checker_name;
    passed = true;
    severity = Severity.none;
    flags = [];
    details = lit "stub" ∷ [];
  };
}

abbrev pub all_stub_checkers : List Checker
all_stub_checkers =
    stub_checker "oracle_sanity"
    ∷ stub_checker "authority_diff"
    ∷ stub_checker "intent_diff"
    ∷ stub_checker "contagion_map"
    ∷ stub_checker "mev_sandwich"
    ∷ stub_checker "approval_abuse"
    ∷ stub_checker "sim_spoof"
    ∷ []

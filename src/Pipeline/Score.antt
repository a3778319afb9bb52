-- ===== src/Pipeline/Score.antt =====
-- crates/ciel-pipeline/src/scorer_stub.rs.
pub mod Laws
pub mod Order
pub mod Encode
use ciel_sol.Base.{ℕ, Bool, true, false, List, [], ◌∷◌, String, if◌then◌else◌, any}
use ciel_sol.Base.Int.{ℤ, pos, leb_ℤ}
use ciel_sol.Checkers.Types.{Severity, low, medium, high, critical, CheckerOutput}
use ciel_sol.Checkers.Results.{CheckerStatus, completed, timed_out, CheckerResults, all_completed}
use ciel_sol.Pipeline.Float.{
  F64, one, f0_05, f0_10, f0_15, f0_40, f0_70, sub, clamp, times_10000_round_u16,
}
use ciel_sol.Signer.Attestation.{Verdict, approve, warn, block}

abbrev pub severity_penalty : Severity → F64
severity_penalty Severity.none = pos 0
severity_penalty low = f0_05
severity_penalty medium = f0_15
severity_penalty high = f0_40
severity_penalty critical = one

-- What one status takes off the score.
abbrev pub penalty : CheckerStatus → F64
penalty (completed o) = severity_penalty o.severity
penalty timed_out = f0_10

-- The loop, from any score.
unfoldable pub subtract_all : F64 → List (String × CheckerStatus) → F64
subtract_all score [] = score
subtract_all score ((n, s) ∷ m) = subtract_all (sub score (penalty s)) m

unfoldable pub compute_safety_score : CheckerResults → F64
unfolding subtract_all clamp
compute_safety_score r = clamp (subtract_all one r.outputs)

abbrev pub is_critical : CheckerOutput → Bool
is_critical o = is_critical_severity o.severity
  where
    is_critical_severity : Severity → Bool
    is_critical_severity critical = true
    is_critical_severity _ = false

unfoldable pub score_to_verdict : F64 → CheckerResults → Verdict
score_to_verdict score r =
    if any is_critical (all_completed r)
    then block
    else if leb_ℤ f0_70 score
    then approve
    else if leb_ℤ f0_40 score
    then warn
    else block

unfoldable pub encode_score_u16 : F64 → ℕ
unfolding clamp times_10000_round_u16
encode_score_u16 score = times_10000_round_u16 (clamp score)

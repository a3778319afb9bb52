-- ===== src/Pipeline/Score/Order.antt =====
-- Worse statuses give no better score and no better verdict.
use ciel_sol.Base.{◌≤◌, ◌≡◌, true, List, [], ◌∷◌, String, any, arith}
use ciel_sol.Base.Int.{ℤ, ◌≤ℤ◌}
use ciel_sol.Checkers.Types.{Severity, severity_u8}
use ciel_sol.Checkers.Results.{
  CheckerStatus, completed, timed_out, CheckerResults, completed_outputs,
}
use ciel_sol.Pipeline.Float.{one, sub, clamp}
use ciel_sol.Pipeline.Float.Order.{sub-mono}
use ciel_sol.Signer.Attestation.{verdict_u8}
use ciel_sol.Pipeline.Score.{
  severity_penalty, penalty, subtract_all, compute_safety_score, is_critical, score_to_verdict,
}

-- The order of the severities, None, Low, Medium, High, Critical; a missed deadline stands between
-- Low and Medium.
abbrev pub WorseStatus : CheckerStatus → CheckerStatus → Type 0
WorseStatus (completed o) (completed o') = severity_u8 o.severity ≤ severity_u8 o'.severity
WorseStatus (completed o) timed_out = severity_u8 o.severity ≤ 1
WorseStatus timed_out (completed o') = 2 ≤ severity_u8 o'.severity
WorseStatus timed_out timed_out = Unit

-- The lists have the same checkers in the same order, and at each place the second a status at
-- least as bad.
abbrev pub Worse : List (String × CheckerStatus) → List (String × CheckerStatus) → Type 0
Worse [] [] = Unit
Worse ((n, s) ∷ m) ((n', s') ∷ m') = (n ≡ n') × WorseStatus s s' × Worse m m'
Worse _ _ = ⊥

severity_penalty-mono :
    (s s' : Severity) → severity_u8 s ≤ severity_u8 s' → severity_penalty s ≤ℤ severity_penalty s'
severity_penalty-mono s s' h = ground arith

-- The penalties follow that order.
penalty-mono : (s s' : CheckerStatus) → WorseStatus s s' → penalty s ≤ℤ penalty s'
penalty-mono (completed o) (completed o') h = severity_penalty-mono o.severity o'.severity h
penalty-mono (completed o) timed_out h = ground arith
penalty-mono timed_out (completed o') h = ground arith
penalty-mono timed_out timed_out h = omega arith

subtract_all-antitone :
    (m m' : List (String × CheckerStatus)) (a b : ℤ)
    → Worse m m'
    → b ≤ℤ a
    → subtract_all b m' ≤ℤ subtract_all a m
unfolding subtract_all
subtract_all-antitone [] [] a b w h = h
subtract_all-antitone [] (e ∷ m') a b w h = absurd w
subtract_all-antitone (e ∷ m) [] a b w h = absurd w
subtract_all-antitone ((n, s) ∷ m) ((n', s') ∷ m') a b w h =
    subtract_all-antitone m m' (sub a (penalty s)) (sub b (penalty s')) w.2
      (sub-mono b a (penalty s') (penalty s) h (penalty-mono s s' w.1))

clamp-mono : (a b : ℤ) → a ≤ℤ b → clamp a ≤ℤ clamp b
unfolding clamp
clamp-mono a b h = ground arith

-- Of two results with the same checkers in the same order of iteration, the one whose statuses are
-- at least as bad one by one has no higher score.
pub compute_safety_score-antitone :
    (r r' : CheckerResults)
    → Worse r.outputs r'.outputs
    → compute_safety_score r' ≤ℤ compute_safety_score r
unfolding compute_safety_score
compute_safety_score-antitone r r' w =
    clamp-mono (subtract_all one r'.outputs) (subtract_all one r.outputs)
      (subtract_all-antitone r.outputs r'.outputs one one w (omega arith))

critical-Worse :
    (m m' : List (String × CheckerStatus))
    → Worse m m'
    → any is_critical (completed_outputs m) ≡ true
    → any is_critical (completed_outputs m') ≡ true
critical-Worse [] [] w h = h
critical-Worse [] (e ∷ m') w h = absurd w
critical-Worse (e ∷ m) [] w h = absurd w
critical-Worse ((n, completed o) ∷ m) ((n', completed o') ∷ m') w h =
    ground (arith, critical-Worse m m' w.2)
critical-Worse ((n, completed o) ∷ m) ((n', timed_out) ∷ m') w h =
    ground (arith, critical-Worse m m' w.2)
critical-Worse ((n, timed_out) ∷ m) ((n', completed o') ∷ m') w h =
    ground (arith, critical-Worse m m' w.2)
critical-Worse ((n, timed_out) ∷ m) ((n', timed_out) ∷ m') w h = critical-Worse m m' w.2 h

-- Of two results with the same checkers in the same order of iteration, the scorer gives the one
-- whose statuses are at least as bad one by one, in the order None, Low, missed deadline, Medium,
-- High, Critical, a verdict that is no better, in the order Approve, Warn, Block.
pub verdict-antitone :
    (r r' : CheckerResults)
    → Worse r.outputs r'.outputs
    → verdict_u8 (score_to_verdict (compute_safety_score r) r)
      ≤ verdict_u8 (score_to_verdict (compute_safety_score r') r')
unfolding score_to_verdict
verdict-antitone r r' w =
    ground (arith, compute_safety_score-antitone r r' w, critical-Worse r.outputs r'.outputs w)

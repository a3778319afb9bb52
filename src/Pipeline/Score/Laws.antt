-- ===== src/Pipeline/Score/Laws.antt =====
-- The score and the verdict.
use ciel_sol.Base.{◌≤◌, ◌≡◌, refl, List, [], ◌∷◌, String, All, arith, ap, ◌⊎◌, inl, inr}
use ciel_sol.Base.Int.{ℤ, pos, ◌≤ℤ◌, ◌-ℤ◌, -ℤ_parts, int_laws}
use ciel_sol.Checkers.Types.{CheckerOutput, severity_u8}
use ciel_sol.Checkers.Results.{
  CheckerStatus, completed, timed_out, CheckerResults, all_completed, completed_outputs,
}
use ciel_sol.Pipeline.Float.{F64, one, f0_10, f0_40, f0_70, sub, clamp, round53, round}
use ciel_sol.Pipeline.Float.Order.{sub-mono}
use ciel_sol.Signer.Attestation.{Verdict, approve}
use ciel_sol.Pipeline.Score.{
  severity_penalty, penalty, subtract_all, compute_safety_score, score_to_verdict,
}

sub-zero : (c : ℤ) → sub c (pos 0) ≡ round c
unfolding sub
sub-zero c = ap round (omega (int_laws, -ℤ_parts c (pos 0)))

penalty-nonneg : (s : CheckerStatus) → pos 0 ≤ℤ penalty s
penalty-nonneg s = ground arith

-- A number that needs no rounding is a bound that no penalty crosses.
sub-le_cap : (a c p : ℤ) → round c ≡ c → a ≤ℤ c → pos 0 ≤ℤ p → sub a p ≤ℤ c
sub-le_cap a c p e h k = rw (sub-zero c, e) at (sub-mono a c p (pos 0) h k)

subtract_all-le_cap :
    (c a : ℤ) (m : List (String × CheckerStatus)) → round c ≡ c → a ≤ℤ c → subtract_all a m ≤ℤ c
unfolding subtract_all
subtract_all-le_cap c a [] e h = h
subtract_all-le_cap c a ((n, s) ∷ m) e h =
    subtract_all-le_cap c (sub a (penalty s)) m e
      (sub-le_cap a c (penalty s) e h (penalty-nonneg s))

-- 1.0 - 0.40
abbrev f0_60 : F64
f0_60 = pos 0x133333333333330

round-one : round one ≡ one
unfolding round round53
round-one = refl

round-f0_60 : round f0_60 ≡ f0_60
unfolding round round53
round-f0_60 = refl

sub-one-f0_40 : sub one f0_40 ≡ f0_60
unfolding sub round round53 ◌-ℤ◌
sub-one-f0_40 = refl

abbrev pub IsMild : CheckerOutput → Type 0
IsMild o = severity_u8 o.severity ≤ 2

severe_or_IsMild : (o : CheckerOutput) → (f0_40 ≤ℤ severity_penalty o.severity) ⊎ IsMild o
severe_or_IsMild o = ground arith

after_severe :
    (a p : ℤ) (m : List (String × CheckerStatus))
    → a ≤ℤ one
    → f0_40 ≤ℤ p
    → subtract_all (sub a p) m ≤ℤ f0_60
after_severe a p m h k =
    subtract_all-le_cap f0_60 (sub a p) m round-f0_60
      (rw sub-one-f0_40 at (sub-mono a one p f0_40 h k))

high_score-IsMild :
    (m : List (String × CheckerStatus)) (a : ℤ)
    → a ≤ℤ one
    → f0_70 ≤ℤ subtract_all a m
    → All IsMild (completed_outputs m)
unfolding subtract_all
high_score-IsMild [] a h k = tt
high_score-IsMild ((n, completed o) ∷ m) a h k = elim (severe_or_IsMild o) [
  | inl p ↦ absurd (omega (arith, after_severe a (severity_penalty o.severity) m h p))
  | inr q ↦ (
    q,
    high_score-IsMild m (sub a (severity_penalty o.severity))
        (sub-le_cap a one (severity_penalty o.severity) round-one h (penalty-nonneg (completed o)))
        k,
  )
]
high_score-IsMild ((n, timed_out) ∷ m) a h k =
    high_score-IsMild m (sub a f0_10) (sub-le_cap a one f0_10 round-one h (omega arith)) k

abbrev pub verdict_of : CheckerResults → Verdict
verdict_of r = score_to_verdict (compute_safety_score r) r

le_of_clamp : (s : ℤ) → f0_70 ≤ℤ clamp s → f0_70 ≤ℤ s
unfolding clamp
le_of_clamp s h = ground arith

pub approve-le : (s : ℤ) (r : CheckerResults) → score_to_verdict s r ≡ approve → f0_70 ≤ℤ s
unfolding score_to_verdict
approve-le s r h = ground arith

-- A verdict of Approve on the score of the same results means that no completed checker reported
-- High or Critical.
pub approve_means-IsMild :
    (r : CheckerResults) → verdict_of r ≡ approve → All IsMild (all_completed r)
unfolding compute_safety_score
approve_means-IsMild r h =
    high_score-IsMild r.outputs one (omega arith)
      (le_of_clamp (subtract_all one r.outputs) (approve-le _ r h))

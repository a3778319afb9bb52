-- ===== src/Examples/Amounts.antt =====
-- The intent checker.
use ciel_sol.Base.{ℕ, suc, ◌*◌, ◌≤◌, ◌≡◌, refl, true, false, none, some, [], ◌∷◌, arith, ◌↔◌}
use ciel_sol.Base.Int.{pos, negsuc, abs, ◌+ℤ◌, pos_part}
use ciel_sol.Checkers.Types.{IntentSpec, SimulationTrace}
use ciel_sol.Checkers.Intent.Word.{i128_half, add_i128, wrap, within_tolerance}
use ciel_sol.Checkers.Intent.Rules.{TextLib}
use ciel_sol.Checkers.Intent.Verify.{sum_mint_delta, token_sum, verify_spec}
use ciel_sol.Checkers.Intent.Check.{check}
use ciel_sol.Checkers.Intent.Tolerance.{distance, within_tolerance-exact}
use ciel_sol.Checkers.Intent.Outcome.{IsOutcome, intent_check-IsOutcome}
use ciel_sol.Checkers.Intent.Bounds.{
  MinMet, transferred, swap_passed_iff, swap_min_ignored, transfer_shown_in_full_fails,
}
use ciel_sol.Examples.Data.{trace_of, context}

-- 1000 of mint 1 paid and 90 of mint 2 bought.
abbrev swapped : SimulationTrace
swapped = trace_of [] (
    record { owner = 3; mint = 1; delta = negsuc 999 }
    ∷ record { owner = 3; mint = 2; delta = pos 90 }
    ∷ [])

within_tolerance-exact_example :
    (within_tolerance (negsuc 994) (negsuc 999) 100 ≡ true)
    ↔ (distance (negsuc 994) (negsuc 999) * 10000 ≤ abs (negsuc 999) * 100)
within_tolerance-exact_example =
    within_tolerance-exact (negsuc 994) (negsuc 999) 100 (omega arith) (omega arith) (omega arith)

-- A text library of one word to a text, whose numbers are the decimal digits.
abbrev texts : TextLib
texts = record {
  F64 = ℕ;
  from_str = λ t. none;
  is_finite = λ n. true;
  is_positive = λ n. true;
  raw_units = λ n d. pos n;
  split_whitespace = λ t. t ∷ [];
  to_lowercase = λ t. t;
  to_uppercase = λ t. t;
}

intent_check-IsOutcome_example : IsOutcome (check texts context)
intent_check-IsOutcome_example = intent_check-IsOutcome texts context

paid : sum_mint_delta swapped 1 ≡ negsuc 999
unfolding sum_mint_delta token_sum add_i128 wrap ◌+ℤ◌
paid = refl

swap_passed_iff_example :
    ((verify_spec swapped (IntentSpec.swap 1000 1 2 (some 80)) []).passed ≡ true)
    ↔ (abs (sum_mint_delta swapped 1 +ℤ pos 1000) * 10000 ≤ 1000 * 100)
      × (suc 0 ≤ pos_part (sum_mint_delta swapped 2))
      × MinMet (some 80) (sum_mint_delta swapped 2)
swap_passed_iff_example =
    swap_passed_iff swapped 1000 1 2 (some 80) [] (rw paid (omega arith)) (omega arith)
      (omega arith)

swap_min_ignored_example :
    (verify_spec swapped (IntentSpec.swap 1000 1 2 (some i128_half)) []).passed
    ≡ (verify_spec swapped (IntentSpec.swap 1000 1 2 none) []).passed
swap_min_ignored_example =
    swap_min_ignored swapped 1000 i128_half 1 2 [] (omega arith) (omega arith)

bought : suc 0 ≤ pos_part (sum_mint_delta swapped 2)
unfolding sum_mint_delta token_sum add_i128 wrap ◌+ℤ◌
bought = omega arith

transfer_shown_in_full_fails_example :
    (verify_spec (trace_of [] (transferred 5 6 1 1000)) (IntentSpec.transfer 1000 1 6) []).passed
    ≡ false
transfer_shown_in_full_fails_example =
    transfer_shown_in_full_fails (trace_of [] (transferred 5 6 1 1000)) 5 6 1 1000 [] refl
      (λ e. absurd (omega (arith, e))) (omega arith) (omega arith)

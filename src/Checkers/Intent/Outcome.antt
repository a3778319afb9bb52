-- ===== src/Checkers/Intent/Outcome.antt =====
-- What the intent checker answers.
use ciel_sol.Base.{ℕ, ◌≡◌, refl, true, false, Option, none, some, List, [], ◌∷◌, String, arith, map}
use ciel_sol.Base.Int.{ℤ}
use ciel_sol.Checkers.Json.{Pubkey, Text, Piece}
use ciel_sol.Checkers.Types.{
  Severity, high, Flag, CheckerOutput, IntentSpec, Intent, SimulationTrace,
}
use ciel_sol.Checkers.Results.{CheckerContext}
use ciel_sol.Checkers.Intent.Rules.{
  TextLib, IntentPattern, swap, transfer, deposit, unrecognized, token_info, parse_intent_goal,
}
use ciel_sol.Checkers.Intent.Verify.{
  flag_intent_balance_mismatch, passed_noop, inconclusive, failed, verify_swap, verify_transfer,
  verify_deposit, verify_spec, IntentSource,
}
use ciel_sol.Checkers.Intent.Check.{
  swap_with, transfer_with, deposit_with, verify_swap_from_text, verify_transfer_from_text,
  verify_deposit_from_text, verify_pattern, check_intent, check,
}

-- An output passes with no severity, or fails with High and one mismatch flag.
abbrev pub codes_of : List Flag → List String
codes_of = map (λ f. f.code)

abbrev pub IsOutcome : CheckerOutput → Type 0
IsOutcome o =
    (o.passed ≡ true → o.severity ≡ Severity.none)
    × (o.passed ≡ false
        → (o.severity ≡ high) × (codes_of o.flags ≡ flag_intent_balance_mismatch ∷ []))

verify_swap-IsOutcome :
    (trace : SimulationTrace) (amount : ℤ) (mint_in mint_out : Pubkey) (min : Option ℤ) (bps : ℕ)
    (source : IntentSource) (d : Text)
    → IsOutcome (verify_swap trace amount mint_in mint_out min bps source d)
unfolding verify_swap passed_noop failed
verify_swap-IsOutcome trace amount mint_in mint_out min bps source d = ground arith

verify_transfer-IsOutcome :
    (trace : SimulationTrace) (amount : ℤ) (mint : Pubkey) (bps : ℕ) (source : IntentSource)
    (d : Text)
    → IsOutcome (verify_transfer trace amount mint bps source d)
unfolding verify_transfer passed_noop failed
verify_transfer-IsOutcome trace amount mint bps source d = ground arith

verify_deposit-IsOutcome :
    (trace : SimulationTrace) (amount : ℤ) (mint : Pubkey) (bps : ℕ) (source : IntentSource)
    (d : Text)
    → IsOutcome (verify_deposit trace amount mint bps source d)
unfolding verify_deposit failed
verify_deposit-IsOutcome trace amount mint bps source d = ground arith

verify_spec-IsOutcome :
    (trace : SimulationTrace) (s : IntentSpec) (d : Text) → IsOutcome (verify_spec trace s d)
unfolding verify_spec
verify_spec-IsOutcome trace (IntentSpec.swap a i o m) d = verify_swap-IsOutcome trace _ i o _ _ _ d
verify_spec-IsOutcome trace (IntentSpec.transfer a i r) d =
    verify_transfer-IsOutcome trace _ i _ _ d
verify_spec-IsOutcome trace (IntentSpec.deposit a i p) d = verify_deposit-IsOutcome trace _ i _ _ d

inconclusive-IsOutcome :
    (goal : Text) (reason : String) (m : List Piece) → IsOutcome (inconclusive goal reason m)
unfolding inconclusive
inconclusive-IsOutcome goal reason m = ground arith

module _ (lib : TextLib) where
  swap_with-IsOutcome :
      (trace : SimulationTrace) (a : lib.F64) (i o goal : Text) (x y : Option (Pubkey × ℕ))
      → IsOutcome (swap_with lib trace a i o goal x y)
  unfolding swap_with
  swap_with-IsOutcome trace a i o goal none y = inconclusive-IsOutcome goal _ _
  swap_with-IsOutcome trace a i o goal (some (m, d)) none = inconclusive-IsOutcome goal _ _
  swap_with-IsOutcome trace a i o goal (some (m, d)) (some (m', d')) =
      verify_swap-IsOutcome trace _ m m' _ _ _ goal

  transfer_with-IsOutcome :
      (trace : SimulationTrace) (a : lib.F64) (t goal : Text) (x : Option (Pubkey × ℕ))
      → IsOutcome (transfer_with lib trace a t goal x)
  unfolding transfer_with
  transfer_with-IsOutcome trace a t goal none = inconclusive-IsOutcome goal _ _
  transfer_with-IsOutcome trace a t goal (some (m, d)) =
      verify_transfer-IsOutcome trace _ m _ _ goal

  deposit_with-IsOutcome :
      (trace : SimulationTrace) (a : lib.F64) (t goal : Text) (x : Option (Pubkey × ℕ))
      → IsOutcome (deposit_with lib trace a t goal x)
  unfolding deposit_with
  deposit_with-IsOutcome trace a t goal none = inconclusive-IsOutcome goal _ _
  deposit_with-IsOutcome trace a t goal (some (m, d)) = verify_deposit-IsOutcome trace _ m _ _ goal

  verify_pattern-IsOutcome :
      (trace : SimulationTrace) (goal : Text) (p : IntentPattern lib)
      → IsOutcome (verify_pattern lib trace goal p)
  unfolding verify_pattern verify_swap_from_text verify_transfer_from_text verify_deposit_from_text
  verify_pattern-IsOutcome trace goal (swap a i o) =
      swap_with-IsOutcome trace a i o goal (token_info lib i) (token_info lib o)
  verify_pattern-IsOutcome trace goal (transfer a t r) =
      transfer_with-IsOutcome trace a t goal (token_info lib t)
  verify_pattern-IsOutcome trace goal (deposit a t r) =
      deposit_with-IsOutcome trace a t goal (token_info lib t)
  verify_pattern-IsOutcome trace goal unrecognized = inconclusive-IsOutcome goal _ _

  intent-IsOutcome :
      (trace : SimulationTrace) (s : Option IntentSpec) (intent : Intent)
      → intent.spec ≡ s
      → IsOutcome (check_intent lib trace (some intent))
  unfolding check_intent
  intent-IsOutcome trace (some s) intent e =
      rw (e, check_intent) (verify_spec-IsOutcome trace s intent.description)
  intent-IsOutcome trace none intent e =
      rw (e, check_intent)
        (verify_pattern-IsOutcome trace intent.description
          (parse_intent_goal lib intent.description))

  -- On every path, with or without an intent, structured or parsed: the output passes with no
  -- severity, or it fails with High and exactly one flag, the balance mismatch.
  pub intent_check-IsOutcome : (ctx : CheckerContext) → IsOutcome (check lib ctx)
  unfolding check
  intent_check-IsOutcome ctx = by_intent ctx.intent
    where
      by_intent : (i : Option Intent) → IsOutcome (check_intent lib ctx.trace i)
      by_intent none = unfold check_intent passed_noop in ground arith
      by_intent (some intent) = intent-IsOutcome ctx.trace intent.spec intent refl

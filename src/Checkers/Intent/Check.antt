-- ===== src/Checkers/Intent/Check.antt =====
-- `IntentDiffChecker::check` of intent_diff.rs, and the bridge from parsed text.
use ciel_sol.Base.{ℕ, Option, none, some, [], ◌∷◌}
use ciel_sol.Checkers.Json.{Pubkey, Text, lit, user}
use ciel_sol.Checkers.Types.{CheckerOutput, Intent, SimulationTrace}
use ciel_sol.Checkers.Results.{CheckerContext}
use ciel_sol.Checkers.Intent.Rules.{
  swap_tolerance_bps, transfer_tolerance_bps, deposit_tolerance_bps, TextLib, IntentPattern, swap,
  transfer, deposit, unrecognized, token_info, parse_intent_goal,
}
use ciel_sol.Checkers.Intent.Verify.{
  parsed_goal, passed_noop, inconclusive, verify_swap, verify_transfer, verify_deposit, verify_spec,
}

module _ (lib : TextLib) where
  -- The two `let Some(…) = token_info(…) else` of the swap, on the results of the lookups.
  unfoldable pub swap_with :
      SimulationTrace
      → lib.F64
      → Text
      → Text
      → Text
      → Option (Pubkey × ℕ)
      → Option (Pubkey × ℕ)
      → CheckerOutput
  swap_with trace amount token_in token_out goal none found_out =
      inconclusive goal "unknown_token_symbol"
        (lit "token_in symbol '" ∷ user token_in ∷ lit "' not in registry" ∷ [])
  swap_with trace amount token_in token_out goal (some (mint_in, decimals_in)) none =
      inconclusive goal "unknown_token_symbol"
        (lit "token_out symbol '" ∷ user token_out ∷ lit "' not in registry" ∷ [])
  swap_with trace amount token_in token_out goal (some (mint_in, decimals_in))
        (some (mint_out, decimals_out)) =
      verify_swap trace (lib.raw_units amount decimals_in) mint_in mint_out none swap_tolerance_bps
        (parsed_goal goal) goal

  unfoldable pub verify_swap_from_text :
      SimulationTrace → lib.F64 → Text → Text → Text → CheckerOutput
  unfolding swap_with
  verify_swap_from_text trace amount token_in token_out goal =
      swap_with trace amount token_in token_out goal (token_info lib token_in)
        (token_info lib token_out)

  unfoldable pub transfer_with :
      SimulationTrace → lib.F64 → Text → Text → Option (Pubkey × ℕ) → CheckerOutput
  transfer_with trace amount token goal none =
      inconclusive goal "unknown_token_symbol"
        (lit "token symbol '" ∷ user token ∷ lit "' not in registry" ∷ [])
  transfer_with trace amount token goal (some (mint, decimals)) =
      verify_transfer trace (lib.raw_units amount decimals) mint transfer_tolerance_bps
        (parsed_goal goal) goal

  unfoldable pub verify_transfer_from_text : SimulationTrace → lib.F64 → Text → Text → CheckerOutput
  unfolding transfer_with
  verify_transfer_from_text trace amount token goal =
      transfer_with trace amount token goal (token_info lib token)

  unfoldable pub deposit_with :
      SimulationTrace → lib.F64 → Text → Text → Option (Pubkey × ℕ) → CheckerOutput
  deposit_with trace amount token goal none =
      inconclusive goal "unknown_token_symbol"
        (lit "token symbol '" ∷ user token ∷ lit "' not in registry" ∷ [])
  deposit_with trace amount token goal (some (mint, decimals)) =
      verify_deposit trace (lib.raw_units amount decimals) mint deposit_tolerance_bps
        (parsed_goal goal) goal

  unfoldable pub verify_deposit_from_text : SimulationTrace → lib.F64 → Text → Text → CheckerOutput
  unfolding deposit_with
  verify_deposit_from_text trace amount token goal =
      deposit_with trace amount token goal (token_info lib token)

  unfoldable pub verify_pattern : SimulationTrace → Text → IntentPattern lib → CheckerOutput
  verify_pattern trace goal (swap amount token_in token_out) =
      verify_swap_from_text trace amount token_in token_out goal
  verify_pattern trace goal (transfer amount token recipient) =
      verify_transfer_from_text trace amount token goal
  verify_pattern trace goal (deposit amount token protocol) =
      verify_deposit_from_text trace amount token goal
  verify_pattern trace goal unrecognized = inconclusive goal "multi_leg_unrecognized_pattern" (
      lit
        "Intent goal does not match a recognized verifiable pattern; balance-delta comparison cannot confirm or refute"
      ∷ [])

  unfoldable pub check_intent : SimulationTrace → Option Intent → CheckerOutput
  check_intent trace none = passed_noop (lit "intent_diff: no intent supplied (raw tx mode)" ∷ [])
  check_intent trace (some intent) = elim intent.spec [
    | some spec ↦ verify_spec trace spec intent.description
    | none ↦ verify_pattern trace intent.description (parse_intent_goal lib intent.description)
  ]

  unfoldable pub check : CheckerContext → CheckerOutput
  unfolding check_intent
  check ctx = check_intent ctx.trace ctx.intent

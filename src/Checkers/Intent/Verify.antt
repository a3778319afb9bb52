-- ===== src/Checkers/Intent/Verify.antt =====
-- The verifiers of intent_diff.rs.
use ciel_sol.Base.{
  ℕ, Bool, true, false, Option, none, some, List, [], ◌∷◌, String, ◌==◌, if◌then◌else◌, ◌&&◌, not,
}
use ciel_sol.Base.Int.{ℤ, pos, ltb_ℤ, leb_ℤ}
use ciel_sol.Checkers.Json.{
  Pubkey, Text, Piece, lit, int, short_key, user, Json, null, number, text, str, key_text, Fields,
}
use ciel_sol.Checkers.Types.{
  Severity, high, CheckerOutput, IntentSpec, SimulationTrace, TokenBalanceDelta,
}
use ciel_sol.Checkers.Intent.Word.{as_i128, add_i128, neg_i128, within_tolerance}
use ciel_sol.Checkers.Intent.Rules.{
  swap_tolerance_bps, transfer_tolerance_bps, deposit_tolerance_bps, wsol_mint,
}

abbrev pub flag_intent_balance_mismatch : String
flag_intent_balance_mismatch = "INTENT_BALANCE_MISMATCH"

abbrev pub flag_intent_verification_inconclusive : String
flag_intent_verification_inconclusive = "INTENT_VERIFICATION_INCONCLUSIVE"

pub data IntentSource : Type 0 where
  spec : IntentSource
  parsed_goal : Text → IntentSource

abbrev pub label : IntentSource → Json
label spec = str "spec"
label (parsed_goal g) = str "parsed_goal"

abbrev pub goal_text : IntentSource → Text → Text
goal_text spec fallback = fallback
goal_text (parsed_goal g) fallback = g

unfoldable pub passed_noop : List Piece → CheckerOutput
passed_noop details = record {
  checker_name = "intent_diff";
  passed = true;
  severity = Severity.none;
  flags = [];
  details = details;
}

unfoldable pub inconclusive : Text → String → List Piece → CheckerOutput
inconclusive goal reason message = record {
  checker_name = "intent_diff";
  passed = true;
  severity = Severity.none;
  flags =
      record {
        code = flag_intent_verification_inconclusive;
        message = message;
        fields = ("intent_goal", text (user goal ∷ [])) ∷ ("reason", str reason) ∷ [];
      }
      ∷ [];
  details =
      lit "Intent verification inconclusive — goal pattern not in deterministic rule table" ∷ [];
}

unfoldable pub failed : String → List Piece → Fields → Severity → List Piece → CheckerOutput
failed code message fields severity details = record {
  checker_name = "intent_diff";
  passed = false;
  severity = severity;
  flags = record { code = code; message = message; fields = fields } ∷ [];
  details = details;
}

-- `.filter(|d| &d.mint == mint).map(|d| d.delta).sum()`
unfoldable pub token_sum : Pubkey → List TokenBalanceDelta → ℤ
token_sum mint [] = pos 0
token_sum mint (d ∷ ds) =
    let rest = token_sum mint ds in if d.mint == mint then add_i128 d.delta rest else rest

unfoldable pub lamport_sum : List (Pubkey × ℤ) → ℤ
lamport_sum [] = pos 0
lamport_sum ((k, d) ∷ ds) = add_i128 d (lamport_sum ds)

unfoldable pub sum_mint_delta : SimulationTrace → Pubkey → ℤ
sum_mint_delta trace mint =
    let tokens = token_sum mint trace.token_balance_deltas in
    if mint == wsol_mint then add_i128 tokens (lamport_sum trace.balance_deltas) else tokens

abbrev pub int_text : ℤ → Json
int_text a = text (int a ∷ [])

abbrev pub opt_int : Option ℤ → Json
opt_int none = null
opt_int (some a) = int_text a

-- `min_amount_out.map(|min| actual_out >= min).unwrap_or(true)`
abbrev pub min_ok : Option ℤ → ℤ → Bool
min_ok none actual = true
min_ok (some min) actual = leb_ℤ min actual

abbrev pub swap_reason : Bool → Bool → String
swap_reason input_ok output_direction_ok =
    if not input_ok
    then "input_amount_outside_tolerance"
    else if not output_direction_ok
    then "output_direction_or_token_mismatch"
    else "output_below_min_amount"

unfoldable pub verify_swap :
    SimulationTrace → ℤ → Pubkey → Pubkey → Option ℤ → ℕ → IntentSource → Text → CheckerOutput
verify_swap trace expected_amount_in mint_in mint_out min_amount_out tolerance_bps source
      description =
    let actual_in = sum_mint_delta trace mint_in in
    let actual_out = sum_mint_delta trace mint_out in
    let expected_in = neg_i128 expected_amount_in in
    let input_ok = within_tolerance actual_in expected_in tolerance_bps in
    let output_direction_ok = ltb_ℤ (pos 0) actual_out in
    let output_min_ok = min_ok min_amount_out actual_out in
    let goal = goal_text source description in
    let reason = swap_reason input_ok output_direction_ok in
    if input_ok && (output_direction_ok && output_min_ok)
    then passed_noop (
        lit "Intent '"
        ∷ user goal
        ∷ lit "' matches simulation: "
        ∷ short_key mint_in
        ∷ lit " in delta "
        ∷ int actual_in
        ∷ lit ", "
        ∷ short_key mint_out
        ∷ lit " out delta "
        ∷ int actual_out
        ∷ [])
    else failed flag_intent_balance_mismatch
        (lit "Intent expects swap "
          ∷ short_key mint_in
          ∷ lit " → "
          ∷ short_key mint_out
          ∷ lit " but simulation shows in-delta="
          ∷ int actual_in
          ∷ lit ", out-delta="
          ∷ int actual_out
          ∷ [])
        (("expected_mint_in", key_text mint_in)
          ∷ ("expected_amount_in", int_text expected_amount_in)
          ∷ ("actual_in_delta", int_text actual_in)
          ∷ ("expected_mint_out", key_text mint_out)
          ∷ ("actual_out_delta", int_text actual_out)
          ∷ ("min_amount_out", opt_int min_amount_out)
          ∷ ("tolerance_bps", number tolerance_bps)
          ∷ ("intent_source", label source)
          ∷ ("intent_goal", text (user goal ∷ []))
          ∷ ("reason", str reason)
          ∷ [])
        high
        (lit "Intent '"
          ∷ user goal
          ∷ lit "' does NOT match simulation ("
          ∷ lit reason
          ∷ lit ")"
          ∷ [])

-- The fields that the other two verifiers report on a mismatch.
abbrev pub amount_fields : Pubkey → ℤ → ℤ → ℕ → IntentSource → Text → String → Fields
amount_fields mint expected actual tolerance_bps source goal reason =
    ("expected_mint", key_text mint)
    ∷ ("expected_amount", int_text expected)
    ∷ ("actual_delta", int_text actual)
    ∷ ("tolerance_bps", number tolerance_bps)
    ∷ ("intent_source", label source)
    ∷ ("intent_goal", text (user goal ∷ []))
    ∷ ("reason", str reason)
    ∷ []

unfoldable pub verify_transfer :
    SimulationTrace → ℤ → Pubkey → ℕ → IntentSource → Text → CheckerOutput
verify_transfer trace expected_amount mint tolerance_bps source description =
    let actual = sum_mint_delta trace mint in
    let expected = neg_i128 expected_amount in
    let goal = goal_text source description in
    if within_tolerance actual expected tolerance_bps
    then passed_noop (
        lit "Intent '"
        ∷ user goal
        ∷ lit "' matches simulation: "
        ∷ short_key mint
        ∷ lit " delta "
        ∷ int actual
        ∷ lit " (transfer outflow)"
        ∷ [])
    else failed flag_intent_balance_mismatch
        (lit "Intent expects transfer of "
          ∷ int expected_amount
          ∷ lit " "
          ∷ short_key mint
          ∷ lit " but simulation shows delta "
          ∷ int actual
          ∷ [])
        (amount_fields mint expected_amount actual tolerance_bps source goal
          "transfer_amount_outside_tolerance")
        high (lit "Intent '" ∷ user goal ∷ lit "' does NOT match simulation (transfer)" ∷ [])

unfoldable pub verify_deposit :
    SimulationTrace → ℤ → Pubkey → ℕ → IntentSource → Text → CheckerOutput
verify_deposit trace expected_amount mint tolerance_bps source description =
    let actual = sum_mint_delta trace mint in
    let expected = neg_i128 expected_amount in
    let goal = goal_text source description in
    if not (within_tolerance actual expected tolerance_bps)
    then failed flag_intent_balance_mismatch
        (lit "Intent expects deposit of "
          ∷ int expected_amount
          ∷ lit " "
          ∷ short_key mint
          ∷ lit " but simulation shows outflow "
          ∷ int actual
          ∷ [])
        (amount_fields mint expected_amount actual tolerance_bps source goal
          "deposit_outflow_outside_tolerance")
        high (lit "Intent '" ∷ user goal ∷ lit "' does NOT match simulation (deposit outflow)" ∷ [])
    else record {
      checker_name = "intent_diff";
      passed = true;
      severity = Severity.none;
      flags =
          record {
            code = flag_intent_verification_inconclusive;
            message =
                lit "Deposit outflow verified; receipt-token verification not in rule table" ∷ [];
            fields =
                ("intent_goal", text (user goal ∷ []))
                ∷ ("intent_source", label source)
                ∷ ("reason", str "deposit_receipt_unverified")
                ∷ ("verified_outflow_mint", key_text mint)
                ∷ ("verified_outflow_delta", int_text actual)
                ∷ [];
          }
          ∷ [];
      details =
          lit "Intent '"
          ∷ user goal
          ∷ lit "' outflow verified; receipt inconclusive (no protocol registry)"
          ∷ [];
    }

-- `min_amount_out.map(|v| v as i128)`
abbrev pub cast_min : Option ℕ → Option ℤ
cast_min none = none
cast_min (some v) = some (as_i128 v)

unfoldable pub verify_spec : SimulationTrace → IntentSpec → Text → CheckerOutput
verify_spec trace (IntentSpec.swap amount_in mint_in mint_out min_amount_out) description =
    verify_swap trace (as_i128 amount_in) mint_in mint_out (cast_min min_amount_out)
      swap_tolerance_bps spec description
verify_spec trace (IntentSpec.transfer amount mint recipient) description =
    verify_transfer trace (as_i128 amount) mint transfer_tolerance_bps spec description
verify_spec trace (IntentSpec.deposit amount mint protocol) description =
    verify_deposit trace (as_i128 amount) mint deposit_tolerance_bps spec description

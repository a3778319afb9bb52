-- ===== src/Checkers/Intent/Bounds.antt =====
-- What a structured intent is held to, in plain arithmetic, and where the machine words give way.
use ciel_sol.Base.{
  ℕ, suc, ◌*◌, ◌≤◌, ◌<◌, ◌≡◌, refl, Bool, true, false, Option, none, some, List, [], ◌∷◌, arith,
  ◌↔◌, ◌≢◌, ◌&&◌, ◌∙◌,
}
use ciel_sol.Base.Int.{ℤ, pos, sub_ℕ, ◌+ℤ◌, ◌-ℤ◌, ltb_ℤ, ◌≤ℤ◌, abs, pos_part}
use ciel_sol.Checkers.Json.{Pubkey, Text}
use ciel_sol.Checkers.Types.{IntentSpec, SimulationTrace, TokenBalanceDelta}
use ciel_sol.Checkers.Intent.Word.{i128_half, wrap, as_i128, add_i128, neg_i128, within_tolerance}
use ciel_sol.Checkers.Intent.Rules.{wsol_mint}
use ciel_sol.Checkers.Intent.Verify.{
  passed_noop, failed, sum_mint_delta, token_sum, min_ok, cast_min, verify_swap, verify_transfer,
  verify_spec,
}
use ciel_sol.Checkers.Intent.Tolerance.{
  amount_bound, distance, within_tolerance-exact, within_tolerance_saturates,
}

neg-as_i128 : (a : ℕ) → a < amount_bound → neg_i128 (as_i128 a) ≡ sub_ℕ 0 a
unfolding neg_i128 as_i128
neg-as_i128 a h = ground arith

distance-neg : (x : ℤ) (a : ℕ) → distance x (sub_ℕ 0 a) ≡ abs (x +ℤ pos a)
unfolding ◌-ℤ◌ ◌+ℤ◌
distance-neg x a = ground arith

abs-neg : (a : ℕ) → abs (sub_ℕ 0 a) ≡ a
abs-neg a = ground arith

outflow_iff :
    (actual : ℤ) (a bps : ℕ)
    → abs actual < amount_bound
    → a < amount_bound
    → bps ≤ 65535
    → (within_tolerance actual (neg_i128 (as_i128 a)) bps ≡ true)
      ↔ (abs (actual +ℤ pos a) * 10000 ≤ a * bps)
outflow_iff actual a bps h k l =
    let exact = within_tolerance-exact actual (sub_ℕ 0 a) bps h (rw (abs-neg a) k) l in
    rw (neg-as_i128 a k, ← distance-neg actual a) (rw (abs-neg a) at exact)

-- The minimum that the intent sets, where it sets one.
abbrev pub MinMet : Option ℕ → ℤ → Type 0
MinMet none actual = Unit
MinMet (some m) actual = pos m ≤ℤ actual

abbrev pub MinInRange : Option ℕ → Type 0
MinInRange none = Unit
MinInRange (some m) = m < i128_half

min_ok_iff :
    (min : Option ℕ) (actual : ℤ)
    → MinInRange min
    → (min_ok (cast_min min) actual ≡ true) ↔ MinMet min actual
unfolding as_i128
min_ok_iff none actual h = (λ e. tt, λ e. refl)
min_ok_iff (some m) actual h = ground arith

swap-passed :
    (trace : SimulationTrace) (a : ℕ) (i o : Pubkey) (min : Option ℕ) (d : Text)
    → (verify_spec trace (IntentSpec.swap a i o min) d).passed ≡ (
        within_tolerance (sum_mint_delta trace i) (neg_i128 (as_i128 a)) 100
        && (ltb_ℤ (pos 0) (sum_mint_delta trace o)
            && min_ok (cast_min min) (sum_mint_delta trace o)))
unfolding verify_spec verify_swap passed_noop failed
swap-passed trace a i o min d = ground arith

transfer-passed :
    (trace : SimulationTrace) (a : ℕ) (m r : Pubkey) (d : Text)
    → (verify_spec trace (IntentSpec.transfer a m r) d).passed
      ≡ within_tolerance (sum_mint_delta trace m) (neg_i128 (as_i128 a)) 10
unfolding verify_spec verify_transfer passed_noop failed
transfer-passed trace a m r d = ground arith

-- For amounts below 2^110, a structured swap passes exactly if the balance of the mint paid fell by
-- the amount within one percent, the balance of the mint bought rose, and it rose by the minimum
-- where the intent sets one.
pub swap_passed_iff :
    (trace : SimulationTrace) (a : ℕ) (i o : Pubkey) (min : Option ℕ) (d : Text)
    → abs (sum_mint_delta trace i) < amount_bound
    → a < amount_bound
    → MinInRange min
    → ((verify_spec trace (IntentSpec.swap a i o min) d).passed ≡ true)
      ↔ (abs (sum_mint_delta trace i +ℤ pos a) * 10000 ≤ a * 100)
        × (suc 0 ≤ pos_part (sum_mint_delta trace o))
        × MinMet min (sum_mint_delta trace o)
swap_passed_iff trace a i o min d h k r =
    let outflow = outflow_iff (sum_mint_delta trace i) a 100 h k (omega arith) in
    let minimum = min_ok_iff min (sum_mint_delta trace o) r in
    rw swap-passed (
      λ e. (outflow.0 (ground arith), ground arith, minimum.0 (ground arith)),
      λ e. ground (arith, outflow.1 e.0, minimum.1 e.2),
    )

min_met_by_gain :
    (m : ℕ) (actual : ℤ)
    → i128_half ≤ m
    → m < 2 * i128_half
    → (ltb_ℤ (pos 0) actual && min_ok (cast_min (some m)) actual)
      ≡ (ltb_ℤ (pos 0) actual && min_ok none actual)
unfolding as_i128
min_met_by_gain m actual h k = ground arith

-- A minimum from 2^127 on becomes negative in the cast: the swap passes as if none were set.
pub swap_min_ignored :
    (trace : SimulationTrace) (a m : ℕ) (i o : Pubkey) (d : Text)
    → i128_half ≤ m
    → m < 2 * i128_half
    → (verify_spec trace (IntentSpec.swap a i o (some m)) d).passed
      ≡ (verify_spec trace (IntentSpec.swap a i o none) d).passed
swap_min_ignored trace a m i o d h k = ground (
  arith,
  swap-passed trace a i o (some m) d,
  swap-passed trace a i o none d,
  min_met_by_gain m (sum_mint_delta trace o) h k,
)

-- For an amount from 2^121 on, below 2^127, a swap passes though nothing of the mint paid left.
pub swap_unspent_passes :
    (trace : SimulationTrace) (a : ℕ) (i o : Pubkey) (d : Text)
    → 2658455991569831745807614120560689152 ≤ a
    → a < i128_half
    → sum_mint_delta trace i ≡ pos 0
    → suc 0 ≤ pos_part (sum_mint_delta trace o)
    → (verify_spec trace (IntentSpec.swap a i o none) d).passed ≡ true
swap_unspent_passes trace a i o d h k e g =
    swap-passed trace a i o none d ∙ rw (e, within_tolerance_saturates a h k) (ground arith)

-- The two balance changes of a transfer of x units that the trace shows in full.
abbrev pub transferred : Pubkey → Pubkey → Pubkey → ℕ → List TokenBalanceDelta
transferred sender recipient mint x =
    record { owner = sender; mint = mint; delta = sub_ℕ 0 x }
    ∷ record { owner = recipient; mint = mint; delta = pos x }
    ∷ []

transferred-sum :
    (s r m : Pubkey) (x : ℕ) → x < amount_bound → token_sum m (transferred s r m x) ≡ pos 0
unfolding token_sum add_i128 ◌+ℤ◌ wrap
transferred-sum s r m x h = ground arith

unchanged :
    (trace : SimulationTrace) (s r m : Pubkey) (x : ℕ)
    → trace.token_balance_deltas ≡ transferred s r m x
    → m ≢ wsol_mint
    → x < amount_bound
    → sum_mint_delta trace m ≡ pos 0
unfolding sum_mint_delta
unchanged trace s r m x e n h = rw e (ground (arith, transferred-sum s r m x h))

not-true : (b : Bool) → b ≢ true → b ≡ false
not-true b h = ground arith

falls : (x : ℕ) → 0 < x → abs (pos 0 +ℤ pos x) * 10000 ≤ x * 10 → ⊥
unfolding ◌+ℤ◌
falls x p h = ground arith

-- Where the trace shows both sides of a transfer, the sum over all owners is zero: every such
-- transfer of a mint other than wrapped SOL fails, though the sender paid exactly the amount.
pub transfer_shown_in_full_fails :
    (trace : SimulationTrace) (sender recipient mint : Pubkey) (x : ℕ) (d : Text)
    → trace.token_balance_deltas ≡ transferred sender recipient mint x
    → mint ≢ wsol_mint
    → 0 < x
    → x < amount_bound
    → (verify_spec trace (IntentSpec.transfer x mint recipient) d).passed ≡ false
transfer_shown_in_full_fails trace sender recipient mint x d e n p h =
    let still = unchanged trace sender recipient mint x e n h in
    let outflow = outflow_iff (pos 0) x 10 (omega arith) h (omega arith) in
    transfer-passed trace x mint recipient d ∙ rw still (not-true _ (λ t. falls x p (outflow.0 t)))

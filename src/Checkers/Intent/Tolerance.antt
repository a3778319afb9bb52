-- ===== src/Checkers/Intent/Tolerance.antt =====
-- The tolerance test, with the machine arithmetic taken away.
use ciel_sol.Base.{ℕ, ◌*◌, ◌≤◌, ◌<◌, ◌≡◌, true, arith, ◌↔◌}
use ciel_sol.Base.Int.{ℤ, pos, negsuc, ◌-ℤ◌, abs}
use ciel_sol.Checkers.Intent.Word.{
  i128_half, wrap, as_i128, sub_i128, neg_i128, abs_i128, saturating_mul, within_tolerance,
}

-- 2^110: far above every amount of a token, and far below the ends of the range.
abbrev pub amount_bound : ℕ
amount_bound = 1298074214633706907132624082305024

wrap_id : (a : ℤ) → abs a < i128_half → wrap a ≡ a
unfolding wrap
wrap_id (pos n) h = ground arith
wrap_id (negsuc n) h = ground arith

-- |a - b|
abbrev pub distance : ℤ → ℤ → ℕ
distance a b = abs (a -ℤ b)

distance_bound : (a b : ℤ) (n : ℕ) → abs a < n → abs b < n → distance a b < 2 * n
unfolding ◌-ℤ◌
distance_bound a b n h k = ground arith

diff_exact :
    (a e : ℤ)
    → abs a < amount_bound
    → abs e < amount_bound
    → abs_i128 (sub_i128 a e) ≡ pos (distance a e)
unfolding abs_i128 sub_i128
diff_exact a e h k =
    let bound = distance_bound a e amount_bound h k in
    rw (wrap_id (a -ℤ e) (omega arith)) (wrap_id (pos (distance a e)) (omega arith))

abs_exact : (e : ℤ) → abs e < amount_bound → abs_i128 e ≡ pos (abs e)
unfolding abs_i128
abs_exact e h = wrap_id (pos (abs e)) (omega arith)

mul_bound : (n k m j : ℕ) → n ≤ m → k ≤ j → n * k ≤ m * j
mul_bound n k m j h l = grind arith

saturating_exact :
    (n k : ℕ) → n ≤ 2 * amount_bound → k ≤ 65535 → saturating_mul (pos n) k ≡ pos (n * k)
unfolding saturating_mul
saturating_exact n k h l = ground (arith, mul_bound n k (2 * amount_bound) 65535 h l)

-- For amounts below 2^110 the test is |actual - expected| * 10000 ≤ |expected| * tolerance: no
-- step of it wraps or saturates.
pub within_tolerance-exact :
    (actual expected : ℤ) (bps : ℕ)
    → abs actual < amount_bound
    → abs expected < amount_bound
    → bps ≤ 65535
    → (within_tolerance actual expected bps ≡ true)
      ↔ (distance actual expected * 10000 ≤ abs expected * bps)
unfolding within_tolerance
within_tolerance-exact actual expected bps h k l =
    let bound = distance_bound actual expected amount_bound h k in
    rw (diff_exact actual expected h k, abs_exact expected k)
      (rw
        (
          saturating_exact (distance actual expected) 10000 (omega arith) (omega arith),
          saturating_exact (abs expected) bps (omega arith) l,
        )
        (ground arith))

-- Both products saturate for an amount from 2^121 on, so the test accepts a balance that did not
-- change.
pub within_tolerance_saturates :
    (e : ℕ)
    → 2658455991569831745807614120560689152 ≤ e
    → e < i128_half
    → within_tolerance (pos 0) (neg_i128 (as_i128 e)) 100 ≡ true
unfolding within_tolerance abs_i128 sub_i128 saturating_mul neg_i128 as_i128 ◌-ℤ◌
within_tolerance_saturates e h k = ground arith

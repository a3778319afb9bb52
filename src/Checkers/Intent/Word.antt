-- ===== src/Checkers/Intent/Word.antt =====
-- The `i128` arithmetic of intent_diff.rs, as a release build computes it: a result outside the
-- range wraps around, and `saturating_mul` stops at the ends.
use ciel_sol.Base.{ℕ, suc, ◌-◌, ◌*◌, Bool, ltb, leb, if◌then◌else◌}
use ciel_sol.Base.Int.{ℤ, pos, negsuc, sub_ℕ, ◌+ℤ◌, ◌-ℤ◌, abs, leb_ℤ, pos_part, neg_part}

abbrev pub i128_half : ℕ
i128_half = 170141183460469231731687303715884105728

-- A sum or a difference of two `i128`, brought back into the range.
unfoldable pub wrap : ℤ → ℤ
wrap (pos n) = if ltb n i128_half then pos n else sub_ℕ n (2 * i128_half)
wrap (negsuc n) = if ltb n i128_half then negsuc n else sub_ℕ (2 * i128_half) (suc n)

-- `n as i128`, from `u128`
unfoldable pub as_i128 : ℕ → ℤ
unfolding wrap
as_i128 n = wrap (pos n)

unfoldable pub add_i128 : ℤ → ℤ → ℤ
unfolding wrap ◌+ℤ◌
add_i128 a b = wrap (a +ℤ b)

unfoldable pub sub_i128 : ℤ → ℤ → ℤ
unfolding wrap ◌-ℤ◌
sub_i128 a b = wrap (a -ℤ b)

unfoldable pub neg_i128 : ℤ → ℤ
unfolding wrap
neg_i128 a = wrap (sub_ℕ (neg_part a) (pos_part a))

-- `a.abs()`
unfoldable pub abs_i128 : ℤ → ℤ
unfolding wrap
abs_i128 a = wrap (pos (abs a))

-- `a.saturating_mul(k)`, for a factor that is not negative
unfoldable pub saturating_mul : ℤ → ℕ → ℤ
saturating_mul (pos n) k = let p = n * k in if ltb p i128_half then pos p else pos (i128_half - 1)
saturating_mul (negsuc n) k =
    let p = suc n * k in if leb p i128_half then sub_ℕ 0 p else sub_ℕ 0 i128_half

unfoldable pub within_tolerance : ℤ → ℤ → ℕ → Bool
unfolding sub_i128 abs_i128 saturating_mul
within_tolerance actual expected tolerance_bps =
    let diff = abs_i128 (sub_i128 actual expected) in
    let abs_expected = abs_i128 expected in
    leb_ℤ (saturating_mul diff 10000) (saturating_mul abs_expected tolerance_bps)

-- ===== src/Pipeline/Float/Single.antt =====
-- `x as f32` on the numbers of Float: 24 significant bits in place of 53, ties to even. A multiple
-- of 2^-57 is no subnormal number of f32.
use ciel_sol.Base.{ℕ, zero, suc, ◌*◌, ◌^◌, ltb, true, false}
use ciel_sol.Base.Int.{pos, negsuc, sub_ℕ}
use ciel_sol.Pipeline.Float.{F64, nearest_even}

-- The unit d of the last place doubles until 24 bits hold n.
unfoldable pub round24_at : ℕ → ℕ → ℕ → ℕ
unfolding nearest_even
round24_at zero d n = nearest_even d n
round24_at (suc f) d n = elim (ltb n (2 ^ 24 * d)) [
  | true ↦ nearest_even d n
  | false ↦ round24_at f (2 * d) n
]

-- 2^24 * 2^161 exceeds each number below 2^128, the bound of f32.
unfoldable pub as_f32 : F64 → F64
unfolding round24_at
as_f32 (pos n) = pos (round24_at 161 1 n)
as_f32 (negsuc n) = sub_ℕ 0 (round24_at 161 1 (suc n))

-- ===== src/Pipeline/Float.antt =====
-- The `f64` arithmetic of scorer_stub.rs. Every number there is a multiple of 2^-57 (the last
-- binary digit of 0.05), so an `f64` is an integer that counts units of 2^-57, and an operation
-- rounds its exact result to 53 significant bits, ties to even, as IEEE 754 does.
pub mod Order
pub mod Single
use ciel_sol.Base.{
  ℕ, zero, suc, ◌+◌, ◌-◌, ◌*◌, ◌/◌, ◌%◌, ◌^◌, ◌≤◌, ◌<◌, ◌≡◌, refl, Bool, arith, ltb, leb, ◌==◌,
  if◌then◌else◌, Bool-cases, inl, inr, leb→le, ltb→lt, ◌⊎◌, true, false,
}
use ciel_sol.Base.Int.{ℤ, pos, negsuc, ◌≤ℤ◌, ◌-ℤ◌, ltb_ℤ, sub_ℕ}

abbrev pub F64 : Type 0
F64 = ℤ

-- n rounded to a multiple of d, ties to the even multiple.
unfoldable pub nearest_even : ℕ → ℕ → ℕ
nearest_even d n =
    let q = n / d in
    let r = n % d in
    if ltb (2 * r) d then q * d else if ltb d (2 * r) then (q + 1) * d else (q + q % 2) * d

-- The unit d of the last place doubles until 53 bits hold n.
round_at : ℕ → ℕ → ℕ → ℕ
round_at zero d n = nearest_even d n
round_at (suc f) d n = elim (ltb n (2 ^ 53 * d)) [
  | true ↦ nearest_even d n
  | false ↦ round_at f (2 * d) n
]

-- 2^53 * 2^(967 + 57) exceeds every finite number, so 967 doublings reach each magnitude.
unfoldable pub round53 : ℕ → ℕ
unfolding round_at nearest_even
round53 n = round_at 967 1 n

unfoldable pub round : ℤ → F64
round (pos n) = pos (round53 n)
round (negsuc n) = sub_ℕ 0 (round53 (suc n))

-- `a - b`
unfoldable pub sub : F64 → F64 → F64
sub a b = round (a -ℤ b)

-- `1.0`, `0.0` and the other literals, each the `f64` nearest to the decimal.
abbrev pub one : F64
one = pos 144115188075855872

abbrev pub f0_05 : F64
f0_05 = pos 0x1999999999999a

abbrev pub f0_10 : F64
f0_10 = pos 0x33333333333334

abbrev pub f0_15 : F64
f0_15 = pos 0x4ccccccccccccc

abbrev pub f0_40 : F64
f0_40 = pos 0xccccccccccccd0

abbrev pub f0_70 : F64
f0_70 = pos 0x166666666666660

-- `x.clamp(0.0, 1.0)`
unfoldable pub clamp : F64 → F64
clamp x = if ltb_ℤ x (pos 0) then pos 0 else if ltb_ℤ one x then one else x

abbrev pub clamp_ℕ : F64 → ℕ
clamp_ℕ (pos n) = n
clamp_ℕ (negsuc n) = 0

-- `(x * 10000.0).round() as u16` for 0 ≤ x: a product rounded to 53 bits, the nearest whole number
-- (halves go up), and a cast that saturates.
unfoldable pub times_10000_round_u16 : F64 → ℕ
times_10000_round_u16 x =
    let whole = (round53 (clamp_ℕ x * 10000) + 2 ^ 56) / 2 ^ 57 in
    if ltb 65535 whole then 65535 else whole

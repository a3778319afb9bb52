-- ===== src/Pipeline/Float/Order.antt =====
-- Rounding is monotone.
use native.Mathlib.Decide.{dec_lt}
use native.Mathlib.Nat.{div-add-mod', mul-div_left, mul-mod_left}
use ciel_sol.Base.{ℕ, zero, suc, ◌+◌, ◌*◌, ◌/◌, ◌%◌, ◌^◌, ◌≤◌, ◌<◌, ◌≡◌, arith, ap}
use ciel_sol.Base.Int.{ℤ, pos, negsuc, ◌≤ℤ◌, ◌-ℤ◌, -ℤ_parts}
use ciel_sol.Pipeline.Float.{nearest_even, round_at, round53, round, sub}

mul_mono : (a b d : ℕ) → a ≤ b → a * d ≤ b * d
mul_mono a b d h = grind arith

div_mono : (d n m : ℕ) → 0 < d → n ≤ m → n / d ≤ m / d
div_mono d n m h l = grind arith

le-div : (d k n : ℕ) → 0 < d → k * d ≤ n → k ≤ n / d
le-div d k n h l = grind arith

div-lt : (d k n : ℕ) → 0 < d → n < k * d → n / d < k
div-lt d k n h l = grind arith

tie_bounds : (q d : ℕ) → (q * d ≤ (q + q % 2) * d) × ((q + q % 2) * d ≤ (q + 1) * d)
tie_bounds q d =
    (mul_mono q (q + q % 2) d (omega arith), mul_mono (q + q % 2) (q + 1) d (omega arith))

nearest_even-bounds :
    (d n : ℕ) → (n / d * d ≤ nearest_even d n) × (nearest_even d n ≤ (n / d + 1) * d)
unfolding nearest_even
nearest_even-bounds d n = ground (arith, tie_bounds (n / d) d)

-- Two numbers with one quotient round in the order of their remainders.
nearest_even-mono_same :
    (d n m : ℕ) → n % d ≤ m % d → n / d ≡ m / d → nearest_even d n ≤ nearest_even d m
unfolding nearest_even
nearest_even-mono_same d n m l e = rw e (ground (arith, tie_bounds (m / d) d))

nearest_even_mono : (d n m : ℕ) → 0 < d → n ≤ m → nearest_even d n ≤ nearest_even d m
nearest_even_mono d n m h l = elim (dec_lt (n / d) (m / d)) [
  | yes p ↦ omega (
    arith,
    nearest_even-bounds d n,
    nearest_even-bounds d m,
    mul_mono (n / d + 1) (m / d) d (omega arith),
  )
  | no p ↦
      let e : n / d ≡ m / d = omega (arith, div_mono d n m h l) in
      nearest_even-mono_same d n m
        (omega (arith, div-add-mod' n d, div-add-mod' m d, ap (λ (t : ℕ). t * d) e)) e
]

-- A multiple of the unit is a bound that rounding does not cross.
nearest_even-ge : (d k n : ℕ) → 0 < d → k * d ≤ n → k * d ≤ nearest_even d n
nearest_even-ge d k n h l =
    omega (arith, nearest_even-bounds d n, mul_mono k (n / d) d (le-div d k n h l))

nearest_even-le : (d k n : ℕ) → 0 < d → n < k * d → nearest_even d n ≤ k * d
nearest_even-le d k n h l =
    omega
      (arith, nearest_even-bounds d n, mul_mono (n / d + 1) k d (omega (arith, div-lt d k n h l)))

nearest_even-exact : (d k : ℕ) → 0 < d → nearest_even d (k * d) ≡ k * d
unfolding nearest_even
nearest_even-exact d k h = simp (mul-div_left k h, mul-mod_left k d) (ground arith)

round_at-ge : (f d n : ℕ) → 0 < d → 2 ^ 52 * d ≤ n → 2 ^ 52 * d ≤ round_at f d n
unfolding round_at
round_at-ge zero d n h l = nearest_even-ge d (2 ^ 52) n h l
round_at-ge (suc f) d n h l =
    ground (arith, nearest_even-ge d (2 ^ 52) n h l, round_at-ge f (2 * d) n)

round_at_mono : (f d n m : ℕ) → 0 < d → n ≤ m → round_at f d n ≤ round_at f d m
unfolding round_at
round_at_mono zero d n m h l = nearest_even_mono d n m h l
round_at_mono (suc f) d n m h l = ground (
  arith,
  nearest_even_mono d n m h l,
  nearest_even-le d (2 ^ 53) n h,
  round_at-ge f (2 * d) m,
  round_at_mono f (2 * d) n m,
)

pub round53_mono : (n m : ℕ) → n ≤ m → round53 n ≤ round53 m
unfolding round53
round53_mono n m h = round_at_mono 967 1 n m (omega arith) h

-- A larger exact result never rounds to a smaller one.
pub round-mono : (a b : ℤ) → a ≤ℤ b → round a ≤ℤ round b
unfolding round
round-mono (pos n) (pos m) h = omega (arith, round53_mono n m (omega arith))
round-mono (pos n) (negsuc m) h = absurd (omega arith)
round-mono (negsuc n) (pos m) h = ground arith
round-mono (negsuc n) (negsuc m) h = ground (arith, round53_mono (suc m) (suc n) (omega arith))

-- `-` in `f64` is monotone on the left, and antitone on the right.
pub sub-mono : (a b p q : ℤ) → a ≤ℤ b → q ≤ℤ p → sub a p ≤ℤ sub b q
unfolding sub
sub-mono a b p q h k = round-mono (a -ℤ p) (b -ℤ q) (omega (arith, -ℤ_parts a p, -ℤ_parts b q))

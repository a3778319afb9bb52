-- ===== src/Checkers/Approval/Amount.antt =====
-- The amount of an approval.
use ciel_sol.Base.{ℕ, ◌<◌, ◌≡◌, List, [], ◌∷◌, some, All, take, drop, replicate, arith, ◌↔◌}
use ciel_sol.Checkers.Approval.{parse_amount_u64_le, from_le_bytes, u64_max}

abbrev pub IsByte : ℕ → Type 0
IsByte b = b < 256

max_bytes :
    (b0 b1 b2 b3 b4 b5 b6 b7 : ℕ) (r : List ℕ)
    → All IsByte (b0 ∷ b1 ∷ b2 ∷ b3 ∷ b4 ∷ b5 ∷ b6 ∷ b7 ∷ r)
    → from_le_bytes (b0 ∷ b1 ∷ b2 ∷ b3 ∷ b4 ∷ b5 ∷ b6 ∷ b7 ∷ []) ≡ u64_max
    → (b0 ≡ 255)
      × (b1 ≡ 255)
      × (b2 ≡ 255)
      × (b3 ≡ 255)
      × (b4 ≡ 255)
      × (b5 ≡ 255)
      × (b6 ≡ 255)
      × (b7 ≡ 255)
max_bytes b0 b1 b2 b3 b4 b5 b6 b7 r h e = omega arith

-- An amount is there from nine bytes on, and it is u64::MAX exactly if the eight bytes behind the
-- discriminator are all 255.
pub parse_amount-max_iff :
    (bytes : List ℕ)
    → All IsByte bytes
    → (parse_amount_u64_le bytes ≡ some u64_max) ↔ (take 8 (drop 1 bytes) ≡ replicate 8 255)
unfolding parse_amount_u64_le
parse_amount-max_iff (d ∷ b0 ∷ b1 ∷ b2 ∷ b3 ∷ b4 ∷ b5 ∷ b6 ∷ b7 ∷ r) h =
    (λ e. ground (arith, max_bytes b0 b1 b2 b3 b4 b5 b6 b7 r h.1), λ e. ground arith)
parse_amount-max_iff _ h = (λ e. cc, λ e. cc)

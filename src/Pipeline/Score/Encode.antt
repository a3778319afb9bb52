-- ===== src/Pipeline/Score/Encode.antt =====
-- The score as the attestation carries it.
use ciel_sol.Base.{ℕ, ◌+◌, ◌*◌, ◌/◌, ◌^◌, ◌≤◌, ◌≡◌, refl, arith, false, any}
use ciel_sol.Base.Int.{ℤ, ◌≤ℤ◌}
use ciel_sol.Checkers.Results.{CheckerResults, all_completed}
use ciel_sol.Pipeline.Float.{one, f0_40, f0_70, clamp, clamp_ℕ, times_10000_round_u16, round53}
use ciel_sol.Pipeline.Float.Order.{round53_mono}
use ciel_sol.Signer.Attestation.{Verdict, approve, warn, block, timeout}
use ciel_sol.Pipeline.Score.{score_to_verdict, encode_score_u16, is_critical}

clamp_ℕ-clamp_mono : (a b : ℤ) → a ≤ℤ b → clamp_ℕ (clamp a) ≤ clamp_ℕ (clamp b)
unfolding clamp
clamp_ℕ-clamp_mono a b h = ground arith

whole_mono : (n m : ℕ) → n ≤ m → (n + 2 ^ 56) / 2 ^ 57 ≤ (m + 2 ^ 56) / 2 ^ 57
whole_mono n m h = omega arith

times_10000_round_u16_mono :
    (a b : ℤ) → clamp_ℕ a ≤ clamp_ℕ b → times_10000_round_u16 a ≤ times_10000_round_u16 b
unfolding times_10000_round_u16
times_10000_round_u16_mono a b h = ground (
  arith,
  whole_mono (round53 (clamp_ℕ a * 10000)) (round53 (clamp_ℕ b * 10000))
      (round53_mono (clamp_ℕ a * 10000) (clamp_ℕ b * 10000) (omega arith)),
)

-- A higher score is never encoded lower.
pub encode_score_u16_mono : (a b : ℤ) → a ≤ℤ b → encode_score_u16 a ≤ encode_score_u16 b
unfolding encode_score_u16
encode_score_u16_mono a b h =
    times_10000_round_u16_mono (clamp a) (clamp b) (clamp_ℕ-clamp_mono a b h)

encode-one : times_10000_round_u16 one ≡ 10000
unfolding times_10000_round_u16 round53
encode-one = refl

encode-f0_70 : encode_score_u16 f0_70 ≡ 7000
unfolding encode_score_u16 round53
encode-f0_70 = refl

encode-f0_40 : encode_score_u16 f0_40 ≡ 4000
unfolding encode_score_u16 round53
encode-f0_40 = refl

clamp-le_one : (a : ℤ) → clamp_ℕ (clamp a) ≤ clamp_ℕ one
unfolding clamp
clamp-le_one a = ground arith

-- Whatever the score, its encoding is at most 10000: it is never the TIMEOUT sentinel.
pub encode_score_u16-le : (a : ℤ) → encode_score_u16 a ≤ 10000
unfolding encode_score_u16
encode_score_u16-le a =
    omega (arith, encode-one, times_10000_round_u16_mono (clamp a) one (clamp-le_one a))

abbrev pub InBand : Verdict → ℕ → Type 0
InBand approve n = 7000 ≤ n
InBand warn n = (4000 ≤ n) × (n ≤ 7000)
InBand block n = n ≤ 4000
InBand timeout n = n ≡ 65535

-- Where no completed checker reports Critical, the encoded score agrees with the verdict on it:
-- Approve comes with at least 7000, Warn with 4000 to 7000, and Block with at most 4000.
pub encode_agrees :
    (s : ℤ) (r : CheckerResults)
    → any is_critical (all_completed r) ≡ false
    → InBand (score_to_verdict s r) (encode_score_u16 s)
unfolding score_to_verdict
encode_agrees s r h = ground (
  arith,
  encode-f0_70,
  encode-f0_40,
  encode_score_u16_mono f0_70 s,
  encode_score_u16_mono s f0_70,
  encode_score_u16_mono f0_40 s,
  encode_score_u16_mono s f0_40,
)

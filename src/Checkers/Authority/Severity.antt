-- ===== src/Checkers/Authority/Severity.antt =====
-- The helpers of authority_diff.rs on severities.
use ciel_sol.Base.{ℕ, zero, suc, ◌≤◌, ◌%◌, ◌≡◌, refl, Option, some, ltb, leb, if◌then◌else◌, arith}
use ciel_sol.Base.Int.{ℤ, pos, negsuc, ◌+ℤ◌, pos_part}
use ciel_sol.Checkers.Json.{Json, number, Fields, get, insert, get-insert}
use ciel_sol.Checkers.Types.{Severity, low, medium, high, critical, severity_u8}

abbrev pub severity_from_u8 : ℕ → Severity
severity_from_u8 zero = Severity.none
severity_from_u8 (suc zero) = low
severity_from_u8 (suc (suc zero)) = medium
severity_from_u8 (suc (suc (suc zero))) = high
severity_from_u8 (suc (suc (suc (suc n)))) = critical

-- `(severity_u8(s) as i8 + delta).clamp(0, 4)`
unfoldable pub shift_severity : Severity → ℤ → Severity
unfolding ◌+ℤ◌
shift_severity s delta =
    let n = pos_part (pos (severity_u8 s) +ℤ delta) in severity_from_u8 (if ltb 4 n then 4 else n)

unfoldable pub shift_severity_with_floor : Severity → ℤ → Severity → Severity
unfolding shift_severity
shift_severity_with_floor s delta floor =
    let shifted = shift_severity s delta in
    if ltb (severity_u8 shifted) (severity_u8 floor) then floor else shifted

unfoldable pub modulate_by_stack_height : Severity → ℕ → Severity
unfolding shift_severity_with_floor
modulate_by_stack_height sev zero = shift_severity_with_floor sev (negsuc 0) low
modulate_by_stack_height sev (suc zero) = shift_severity_with_floor sev (negsuc 0) low
modulate_by_stack_height sev (suc (suc zero)) = sev
modulate_by_stack_height sev (suc (suc (suc n))) = shift_severity sev (pos 1)

-- `v.as_u64()`, and the cast to u8
abbrev pub severity_of_json : Option Json → Severity
severity_of_json (some (number n)) = severity_from_u8 (n % 256)
severity_of_json _ = Severity.none

unfoldable pub recover_severity : Fields → Severity
recover_severity m = severity_of_json (get m "computed_severity")

from_u8-u8 : (s : Severity) → severity_from_u8 (severity_u8 s % 256) ≡ s
from_u8-u8 Severity.none = refl
from_u8-u8 low = refl
from_u8-u8 medium = refl
from_u8-u8 high = refl
from_u8-u8 critical = refl

-- The scratch field gives back the severity that was written to it.
pub recover-insert :
    (m : Fields) (s : Severity)
    → recover_severity (insert m "computed_severity" (number (severity_u8 s))) ≡ s
unfolding recover_severity
recover-insert m s = rw get-insert (from_u8-u8 s)

-- The larger by the derived order.
abbrev pub max_severity : Severity → Severity → Severity
max_severity a b = if leb (severity_u8 a) (severity_u8 b) then b else a

pub modulate-ge_low :
    (s : Severity) (h : ℕ) → 1 ≤ severity_u8 s → 1 ≤ severity_u8 (modulate_by_stack_height s h)
unfolding modulate_by_stack_height
modulate-ge_low s zero p = ground arith
modulate-ge_low s (suc zero) p = ground arith
modulate-ge_low s (suc (suc zero)) p = p
modulate-ge_low s (suc (suc (suc n))) p = ground arith

pub modulate-critical : (h : ℕ) → 3 ≤ severity_u8 (modulate_by_stack_height critical h)
unfolding modulate_by_stack_height
modulate-critical zero = omega arith
modulate-critical (suc zero) = omega arith
modulate-critical (suc (suc zero)) = omega arith
modulate-critical (suc (suc (suc n))) = omega arith

pub shift_up-ge : (s : Severity) → severity_u8 s ≤ severity_u8 (shift_severity s (pos 1))
unfolding shift_severity
shift_up-ge s = ground arith

pub floor-ge :
    (s floor : Severity) (d : ℤ)
    → severity_u8 floor ≤ severity_u8 (shift_severity_with_floor s d floor)
unfolding shift_severity_with_floor
floor-ge s floor d = ground arith

pub max_severity-ge :
    (a b : Severity)
    → (severity_u8 a ≤ severity_u8 (max_severity a b))
      × (severity_u8 b ≤ severity_u8 (max_severity a b))
max_severity-ge a b = ground arith

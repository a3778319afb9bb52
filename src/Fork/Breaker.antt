-- ===== src/Fork/Breaker.antt =====
-- crates/ciel-fork/src/rpc.rs: the circuit breaker. A time is in nanoseconds, and the clock reads
-- the same throughout one operation.
pub mod Window
pub mod Reach
pub mod Opening
pub mod Recovery
use ciel_sol.Base.{
  ℕ, ◌-◌, ◌*◌, Bool, true, false, Option, none, some, List, [], ◌∷◌, ◌++◌, ltb, leb, length,
  if◌then◌else◌,
}

pub data CircuitState : Type 0 where
  closed opened half_open : CircuitState

abbrev pub failure_threshold_default : ℕ
failure_threshold_default = 5

abbrev pub failure_window_default : ℕ
failure_window_default = 10 * 1000000000

abbrev pub open_duration_default : ℕ
open_duration_default = 30 * 1000000000

-- `failures` has the oldest failure first.
pub record CircuitBreaker : Type 0 where
  pub state : CircuitState
  pub failures : List ℕ
  pub failure_threshold : ℕ
  pub failure_window : ℕ
  pub open_duration : ℕ
  pub opened_at : Option ℕ

abbrev pub new : CircuitBreaker
new = record {
  state = closed;
  failures = [];
  failure_threshold = failure_threshold_default;
  failure_window = failure_window_default;
  open_duration = open_duration_default;
  opened_at = none;
}

-- `opened_at.elapsed() >= open_duration`; a time to come counts as no time passed.
abbrev pub is_over : ℕ → Option ℕ → ℕ → Bool
is_over now none duration = false
is_over now (some t) duration = leb duration (now - t)

abbrev pub available_in : ℕ → CircuitBreaker → CircuitState → Bool × CircuitBreaker
available_in now cb closed = (true, cb)
available_in now cb half_open = (true, cb)
available_in now cb opened =
    if is_over now cb.opened_at cb.open_duration
    then (true, record cb { state = half_open })
    else (false, cb)

unfoldable pub is_available : ℕ → CircuitBreaker → Bool × CircuitBreaker
is_available now cb = available_in now cb cb.state

unfoldable pub record_success : CircuitBreaker → CircuitBreaker
record_success cb = record cb { state = closed; failures = []; opened_at = none }

-- `while front.elapsed() > failure_window { pop_front() }`
unfoldable pub prune : ℕ → ℕ → List ℕ → List ℕ
prune window now [] = []
prune window now (t ∷ ts) =
    let rest = prune window now ts in if ltb window (now - t) then rest else t ∷ ts

abbrev pub failed_in : ℕ → CircuitBreaker → CircuitState → CircuitBreaker
failed_in now cb half_open = record cb { state = opened; opened_at = some now }
failed_in now cb closed =
    let cb' = record cb { failures = prune cb.failure_window now cb.failures ++ (now ∷ []) } in
    if leb cb'.failure_threshold (length cb'.failures)
    then record cb' { state = opened; opened_at = some now }
    else cb'
failed_in now cb opened = record cb { opened_at = some now }

unfoldable pub record_failure : ℕ → CircuitBreaker → CircuitBreaker
record_failure now cb = failed_in now cb cb.state

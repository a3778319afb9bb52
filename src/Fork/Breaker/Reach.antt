-- ===== src/Fork/Breaker/Reach.antt =====
-- The circuit breaker over a run: any sequence of its operations, as concurrent requests make them
-- under the mutex.
use ciel_sol.Base.{
  ℕ, ◌≤◌, ◌<◌, ◌≡◌, refl, false, Option, none, some, List, [], ◌∷◌, ◌++◌, leb, length, arith,
  Bool-cases, inl, inr,
}
use ciel_sol.Fork.Breaker.{
  CircuitState, closed, opened, half_open, CircuitBreaker, new, is_available, record_success,
  record_failure, failure_threshold_default, failure_window_default, open_duration_default, prune,
  available_in, failed_in, is_over,
}
use ciel_sol.Fork.Breaker.Window.{
  IsAscending, IsAscending-later, IsAscending-push, IsAscending-prune,
}

-- The time, the breaker, and the failures recorded since the last success or the start.
pub data Reach : ℕ → CircuitBreaker → List ℕ → Type 0 where
  started : Reach 0 new []
  passed :
      {now : ℕ} {cb : CircuitBreaker} {history : List ℕ} (later : ℕ)
      → now ≤ later
      → Reach now cb history
      → Reach later cb history
  asked :
      {now : ℕ} {cb : CircuitBreaker} {history : List ℕ}
      → Reach now cb history
      → Reach now (is_available now cb).1 history
  succeeded :
      {now : ℕ} {cb : CircuitBreaker} {history : List ℕ}
      → Reach now cb history
      → Reach now (record_success cb) []
  failed :
      {now : ℕ} {cb : CircuitBreaker} {history : List ℕ}
      → Reach now cb history
      → Reach now (record_failure now cb) (history ++ (now ∷ []))

-- A closed breaker counts less than the threshold and has no opening time; any other was opened at
-- a time that has passed.
abbrev pub IsTimed : ℕ → ℕ → CircuitState → Option ℕ → Type 0
IsTimed now count closed none = count < failure_threshold_default
IsTimed now count closed (some t) = ⊥
IsTimed now count _ none = ⊥
IsTimed now count _ (some t) = t ≤ now

pub record IsBreaker (now : ℕ) (cb : CircuitBreaker) : Type 0 where
  pub threshold : cb.failure_threshold ≡ failure_threshold_default
  pub window : cb.failure_window ≡ failure_window_default
  pub duration : cb.open_duration ≡ open_duration_default
  pub ascending : IsAscending 0 now cb.failures
  pub timed : IsTimed now (length cb.failures) cb.state cb.opened_at

IsTimed-later :
    (now later count : ℕ) (s : CircuitState) (o : Option ℕ)
    → now ≤ later
    → IsTimed now count s o
    → IsTimed later count s o
IsTimed-later now later count closed none h k = k
IsTimed-later now later count closed (some t) h k = k
IsTimed-later now later count opened none h k = k
IsTimed-later now later count opened (some t) h k = omega arith
IsTimed-later now later count half_open none h k = k
IsTimed-later now later count half_open (some t) h k = omega arith

later-IsBreaker :
    (now later : ℕ) (cb : CircuitBreaker) → now ≤ later → IsBreaker now cb → IsBreaker later cb
later-IsBreaker now later cb h k = record {
  threshold = k.threshold;
  window = k.window;
  duration = k.duration;
  ascending = IsAscending-later 0 now later cb.failures h k.ascending;
  timed = IsTimed-later now later (length cb.failures) cb.state cb.opened_at h k.timed;
}

IsTimed-half_open :
    (now count : ℕ) (o : Option ℕ) → IsTimed now count opened o → IsTimed now count half_open o
IsTimed-half_open now count none h = h
IsTimed-half_open now count (some t) h = h

is_available-IsBreaker :
    (now : ℕ) (cb : CircuitBreaker) (s : CircuitState)
    → cb.state ≡ s
    → IsBreaker now cb
    → IsBreaker now (available_in now cb s).1
is_available-IsBreaker now cb closed e k = k
is_available-IsBreaker now cb half_open e k = k
is_available-IsBreaker now cb opened e k =
    elim (Bool-cases (is_over now cb.opened_at cb.open_duration)) [
      | inl o ↦ rw o (record {
        threshold = k.threshold;
        window = k.window;
        duration = k.duration;
        ascending = k.ascending;
        timed = IsTimed-half_open now (length cb.failures) cb.opened_at (rw e at k.timed);
      })
      | inr o ↦ rw o k
    ]

record_success-IsBreaker :
    (now : ℕ) (cb : CircuitBreaker) → IsBreaker now cb → IsBreaker now (record_success cb)
unfolding record_success
record_success-IsBreaker now cb k = record {
  threshold = k.threshold;
  window = k.window;
  duration = k.duration;
  ascending = omega arith;
  timed = omega arith;
}

-- What a recorded failure leaves in the queue.
abbrev queued : ℕ → CircuitBreaker → List ℕ
queued now cb = prune cb.failure_window now cb.failures ++ (now ∷ [])

queued-IsAscending :
    (now : ℕ) (cb : CircuitBreaker) → IsBreaker now cb → IsAscending 0 now (queued now cb)
queued-IsAscending now cb k =
    IsAscending-push 0 now now (prune cb.failure_window now cb.failures) (omega arith)
      (IsAscending-prune cb.failure_window now 0 now cb.failures k.ascending)

IsTimed-closed :
    (now count count' : ℕ) (o : Option ℕ)
    → leb failure_threshold_default count' ≡ false
    → IsTimed now count closed o
    → IsTimed now count' closed o
IsTimed-closed now count count' none h k = ground arith
IsTimed-closed now count count' (some t) h k = k

record_failure-IsBreaker :
    (now : ℕ) (cb : CircuitBreaker) (s : CircuitState)
    → cb.state ≡ s
    → IsBreaker now cb
    → IsBreaker now (failed_in now cb s)
record_failure-IsBreaker now cb half_open e k = record {
  threshold = k.threshold;
  window = k.window;
  duration = k.duration;
  ascending = k.ascending;
  timed = omega arith;
}
record_failure-IsBreaker now cb opened e k = record {
  threshold = k.threshold;
  window = k.window;
  duration = k.duration;
  ascending = k.ascending;
  timed = rw e (omega arith);
}
record_failure-IsBreaker now cb closed e k =
    elim (Bool-cases (leb cb.failure_threshold (length (queued now cb)))) [
      | inl o ↦ rw o (record {
        threshold = k.threshold;
        window = k.window;
        duration = k.duration;
        ascending = queued-IsAscending now cb k;
        timed = omega arith;
      })
      | inr o ↦ rw o (record {
        threshold = k.threshold;
        window = k.window;
        duration = k.duration;
        ascending = queued-IsAscending now cb k;
        timed = rw e (
            IsTimed-closed now (length cb.failures) (length (queued now cb)) cb.opened_at
              (rw k.threshold at o) (rw e at k.timed));
      })
    ]

-- In every run the breaker's failures ascend to the present; it is closed with fewer than five of
-- them and no opening time, or it is not closed and was opened at a time that has passed; and its
-- limits stay at the defaults.
pub reach-IsBreaker :
    (now : ℕ) (cb : CircuitBreaker) (history : List ℕ) → Reach now cb history → IsBreaker now cb
unfolding is_available record_success record_failure
reach-IsBreaker _ _ _ started = record {
  threshold = refl;
  window = refl;
  duration = refl;
  ascending = omega arith;
  timed = omega arith;
}
reach-IsBreaker _ cb history (passed {now} later h r) =
    later-IsBreaker now later cb h (reach-IsBreaker now cb history r)
reach-IsBreaker now _ history (asked {cb = cb} r) =
    is_available-IsBreaker now cb cb.state refl (reach-IsBreaker now cb history r)
reach-IsBreaker now _ _ (succeeded {cb = cb} {history} r) =
    record_success-IsBreaker now cb (reach-IsBreaker now cb history r)
reach-IsBreaker now _ _ (failed {cb = cb} {history} r) =
    record_failure-IsBreaker now cb cb.state refl (reach-IsBreaker now cb history r)

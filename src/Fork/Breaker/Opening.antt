-- ===== src/Fork/Breaker/Opening.antt =====
-- When the breaker opens, against a count over the whole history of failures.
use ciel_sol.Base.{
  ℕ, ◌+◌, ◌≤◌, ◌≡◌, refl, List, [], ◌∷◌, ◌++◌, length, length-append, arith, ◌↔◌, ◌∙◌, sym,
}
use ciel_sol.Fork.Breaker.{
  CircuitState, closed, opened, half_open, CircuitBreaker, is_available, record_success,
  record_failure, prune, available_in, failed_in, failure_window_default, failure_threshold_default,
}
use ciel_sol.Fork.Breaker.Window.{
  count_recent, length-prune, count_recent-prune, count_recent-append,
}
use ciel_sol.Fork.Breaker.Reach.{
  Reach, started, passed, asked, succeeded, failed, IsBreaker, reach-IsBreaker,
}

still_closed :
    (now : ℕ) (cb : CircuitBreaker) (s : CircuitState)
    → cb.state ≡ s
    → (available_in now cb s).1.state ≡ closed
    → (available_in now cb s).1 ≡ cb
still_closed now cb closed e k = refl
still_closed now cb half_open e k = refl
still_closed now cb opened e k = ground arith

not_opened :
    (now : ℕ) (cb : CircuitBreaker) (s : CircuitState)
    → cb.state ≡ s
    → (failed_in now cb s).state ≡ closed
    → (cb.state ≡ closed)
      × ((failed_in now cb s).failures ≡ prune cb.failure_window now cb.failures ++ (now ∷ []))
not_opened now cb closed e k = ground arith
not_opened now cb half_open e k = cc
not_opened now cb opened e k = cc

pushed :
    (now later : ℕ) (failures history : List ℕ)
    → now ≤ later
    → count_recent failure_window_default later failures
      ≡ count_recent failure_window_default later history
    → count_recent failure_window_default later
        (prune failure_window_default now failures ++ (now ∷ []))
      ≡ count_recent failure_window_default later (history ++ (now ∷ []))
pushed now later failures history h k =
    let w = failure_window_default in
    rw
      (
        count_recent-append w later (prune w now failures) (now ∷ []),
        count_recent-append w later history (now ∷ []),
        count_recent-prune w now later failures h,
        k,
      )
      refl

-- The pruned queue of a closed breaker counts, now and later, as the whole history does.
pub count_recent-history :
    (now : ℕ) (cb : CircuitBreaker) (history : List ℕ) (later : ℕ)
    → Reach now cb history
    → cb.state ≡ closed
    → now ≤ later
    → count_recent failure_window_default later cb.failures
      ≡ count_recent failure_window_default later history
unfolding is_available record_success record_failure
count_recent-history _ _ _ later started e h = refl
count_recent-history _ cb history later (passed {now} n p r) e h =
    count_recent-history now cb history later r e (omega arith)
count_recent-history now _ history later (asked {cb = cb} r) e h =
    let q = still_closed now cb cb.state refl e in
    rw q (count_recent-history now cb history later r (rw q at e) h)
count_recent-history now _ _ later (succeeded r) e h = refl
count_recent-history now _ _ later (failed {cb = cb} {history} r) e h =
    let q = not_opened now cb cb.state refl e in
    rw (q.1, (reach-IsBreaker now cb history r).window)
      (pushed now later cb.failures history h (count_recent-history now cb history later r q.0 h))

length-queued :
    (now : ℕ) (cb : CircuitBreaker)
    → IsBreaker now cb
    → length (prune cb.failure_window now cb.failures ++ (now ∷ []))
      ≡ count_recent failure_window_default now cb.failures + 1
length-queued now cb k = rw k.window (
    omega (
      arith,
      length-append (prune failure_window_default now cb.failures) (now ∷ []),
      length-prune failure_window_default now 0 now cb.failures k.ascending,
    ))

opens :
    (now : ℕ) (cb : CircuitBreaker) (s : CircuitState)
    → IsBreaker now cb
    → cb.state ≡ s
    → s ≡ closed
    → ((failed_in now cb s).state ≡ opened)
      ↔ (failure_threshold_default ≤ count_recent failure_window_default now cb.failures + 1)
opens now cb closed k e h = ground (arith, k.threshold, e, length-queued now cb k)
opens now cb opened k e h = cc
opens now cb half_open k e h = cc

count_recent-now :
    (now : ℕ) (history : List ℕ)
    → count_recent failure_window_default now (history ++ (now ∷ []))
      ≡ count_recent failure_window_default now history + 1
count_recent-now now history =
    count_recent-append failure_window_default now history (now ∷ []) ∙ ground arith

-- In every run in which the breaker is closed, one more failure opens it exactly if at least five
-- of the failures since the last success, that one included, are at most ten seconds old: the
-- pruned queue decides as a count over the whole history would.
pub record_failure-opens_iff :
    (now : ℕ) (cb : CircuitBreaker) (history : List ℕ)
    → Reach now cb history
    → cb.state ≡ closed
    → ((record_failure now cb).state ≡ opened)
      ↔ (5 ≤ count_recent failure_window_default now (history ++ (now ∷ [])))
unfolding record_failure
record_failure-opens_iff now cb history r e =
    rw
      (
        count_recent-now now history,
        sym (count_recent-history now cb history now r e (omega arith)),
      )
      (opens now cb cb.state (reach-IsBreaker now cb history r) refl e)

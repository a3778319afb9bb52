-- ===== src/Fork/Breaker/Recovery.antt =====
-- How the breaker recovers, whatever concurrent requests do to it meanwhile.
use ciel_sol.Base.{
  ℕ, ◌+◌, ◌≤◌, ◌<◌, ◌≡◌, refl, true, false, List, Option, none, some, length, arith, ◌≢◌, ◌++◌, ◌∷◌,
  [],
}
use ciel_sol.Fork.Breaker.{
  CircuitState, closed, opened, half_open, CircuitBreaker, is_available, record_success,
  record_failure, available_in, failed_in, is_over, open_duration_default, new,
}
use ciel_sol.Fork.Breaker.Reach.{Reach, passed, asked, failed, IsBreaker, reach-IsBreaker, IsTimed}

-- What requests do to the breaker between two times, in any order, where none of them succeeds.
pub data NoSuccess (start : ℕ) (before : CircuitBreaker) : ℕ → CircuitBreaker → Type 0 where
  nothing_yet : NoSuccess start before start before
  waits :
      {now : ℕ} {cb : CircuitBreaker} (later : ℕ)
      → now ≤ later
      → NoSuccess start before now cb
      → NoSuccess start before later cb
  asks :
      {now : ℕ} {cb : CircuitBreaker}
      → NoSuccess start before now cb
      → NoSuccess start before now (is_available now cb).1
  fails :
      {now : ℕ} {cb : CircuitBreaker}
      → NoSuccess start before now cb
      → NoSuccess start before now (record_failure now cb)

reach-NoSuccess :
    (start : ℕ) (before : CircuitBreaker) (now : ℕ) (cb : CircuitBreaker) (history : List ℕ)
    → Reach start before history
    → NoSuccess start before now cb
    → (history' : List ℕ) × Reach now cb history'
reach-NoSuccess start before _ _ history r nothing_yet = (history, r)
reach-NoSuccess start before _ cb history r (waits {now} later h s) =
    let (history', r') = reach-NoSuccess start before now cb history r s in
    (history', passed later h r')
reach-NoSuccess start before now _ history r (asks {cb = cb} s) =
    let (history', r') = reach-NoSuccess start before now cb history r s in (history', asked r')
reach-NoSuccess start before now _ history r (fails {cb = cb} s) =
    let (history', r') = reach-NoSuccess start before now cb history r s in
    (history' ++ (now ∷ []), failed r')

NoSuccess-le :
    (start : ℕ) (before : CircuitBreaker) (now : ℕ) (cb : CircuitBreaker)
    → NoSuccess start before now cb
    → start ≤ now
NoSuccess-le start before _ _ nothing_yet = omega arith
NoSuccess-le start before _ cb (waits {now} later h s) =
    omega (arith, h, NoSuccess-le start before now cb s)
NoSuccess-le start before now _ (asks {cb = cb} s) = NoSuccess-le start before now cb s
NoSuccess-le start before now _ (fails {cb = cb} s) = NoSuccess-le start before now cb s

asked-not_closed :
    (now : ℕ) (cb : CircuitBreaker) (s : CircuitState)
    → cb.state ≡ s
    → s ≢ closed
    → (available_in now cb s).1.state ≢ closed
asked-not_closed now cb closed e n = absurd (n refl)
asked-not_closed now cb half_open e n = rw e n
asked-not_closed now cb opened e n = ground (arith, e)

failed-not_closed :
    (now : ℕ) (cb : CircuitBreaker) (s : CircuitState)
    → cb.state ≡ s
    → s ≢ closed
    → (failed_in now cb s).state ≢ closed
failed-not_closed now cb closed e n = absurd (n refl)
failed-not_closed now cb half_open e n = ground arith
failed-not_closed now cb opened e n = ground (arith, e)

-- Only a success closes the breaker.
not_closed-NoSuccess :
    (start : ℕ) (before : CircuitBreaker) (now : ℕ) (cb : CircuitBreaker)
    → before.state ≢ closed
    → NoSuccess start before now cb
    → cb.state ≢ closed
unfolding is_available record_failure
not_closed-NoSuccess start before _ _ n nothing_yet = n
not_closed-NoSuccess start before _ cb n (waits {now} later h s) =
    not_closed-NoSuccess start before now cb n s
not_closed-NoSuccess start before now _ n (asks {cb = cb} s) =
    asked-not_closed now cb cb.state refl (not_closed-NoSuccess start before now cb n s)
not_closed-NoSuccess start before now _ n (fails {cb = cb} s) =
    failed-not_closed now cb cb.state refl (not_closed-NoSuccess start before now cb n s)

abbrev IsSince : ℕ → Option ℕ → Type 0
IsSince since none = ⊥
IsSince since (some t) = since ≤ t

-- The breaker is open, and was opened at a time or later.
record IsShut (since : ℕ) (cb : CircuitBreaker) : Type 0 where
  pub state : cb.state ≡ opened
  pub duration : cb.open_duration ≡ open_duration_default
  pub stamp : IsSince since cb.opened_at

is_over-IsSince :
    (now since : ℕ) (o : Option ℕ)
    → now < since + open_duration_default
    → IsSince since o
    → is_over now o open_duration_default ≡ false
is_over-IsSince now since none h k = refl
is_over-IsSince now since (some t) h k = ground arith

refused-IsShut :
    (now since : ℕ) (cb : CircuitBreaker)
    → now < since + open_duration_default
    → IsShut since cb
    → is_available now cb ≡ (false, cb)
unfolding is_available
refused-IsShut now since cb h k =
    rw (k.state, k.duration, is_over-IsSince now since cb.opened_at h k.stamp) refl

failure-IsShut :
    (now since : ℕ) (cb : CircuitBreaker) (s : CircuitState)
    → cb.state ≡ s
    → s ≢ closed
    → cb.open_duration ≡ open_duration_default
    → since ≤ now
    → IsShut since (failed_in now cb s)
failure-IsShut now since cb closed e n d h = absurd (n refl)
failure-IsShut now since cb half_open e n d h = record { state = refl; duration = d; stamp = h }
failure-IsShut now since cb opened e n d h = record { state = e; duration = d; stamp = h }

-- An open breaker stays shut for thirty seconds, whatever fails meanwhile.
NoSuccess-IsShut :
    (start : ℕ) (before : CircuitBreaker) (now : ℕ) (cb : CircuitBreaker)
    → now < start + open_duration_default
    → IsShut start before
    → NoSuccess start before now cb
    → IsShut start cb
unfolding record_failure
NoSuccess-IsShut start before _ _ h k nothing_yet = k
NoSuccess-IsShut start before _ cb h k (waits {now} later l s) =
    NoSuccess-IsShut start before now cb (omega (arith, l, h)) k s
NoSuccess-IsShut start before now _ h k (asks {cb = cb} s) =
    let shut = NoSuccess-IsShut start before now cb h k s in
    rw (refused-IsShut now start cb h shut) shut
NoSuccess-IsShut start before now _ h k (fails {cb = cb} s) =
    let shut = NoSuccess-IsShut start before now cb h k s in
    failure-IsShut now start cb cb.state refl (rw shut.state (ground arith)) shut.duration
      (NoSuccess-le start before now cb s)

is_over-later :
    (now later count : ℕ) (o : Option ℕ)
    → IsTimed now count opened o
    → now + open_duration_default ≤ later
    → is_over later o open_duration_default ≡ true
is_over-later now later count none t h = absurd t
is_over-later now later count (some at) t h = ground arith

-- A breaker that was not closed is half open once the pause is over.
probing :
    (now later : ℕ) (cb : CircuitBreaker) (s : CircuitState)
    → cb.state ≡ s
    → s ≢ closed
    → IsBreaker now cb
    → now + open_duration_default ≤ later
    → available_in later cb s ≡ (true, record cb { state = half_open })
probing now later cb closed e n k h = absurd (n refl)
probing now later cb half_open e n k h = ground (arith, e)
probing now later cb opened e n k h =
    let o = is_over-later now later (length cb.failures) cb.opened_at (rw e at k.timed) h in
    ground (arith, o, k.duration)

success-new : (now : ℕ) (cb : CircuitBreaker) → IsBreaker now cb → record_success cb ≡ new
unfolding record_success
success-new now cb b = rw (b.duration, b.threshold, b.window) refl

-- A breaker reached in a run and not closed lets a request through that comes thirty seconds later
-- with nothing between. From then on, as long as no success is recorded, whatever requests and
-- failures come and in whatever order, no request is let through for thirty seconds after each
-- failure; and a success that is recorded before such a failure or in the thirty seconds after it
-- makes the breaker as new.
pub recovers :
    (now later failed_at next : ℕ) (cb probed retried : CircuitBreaker) (history : List ℕ)
    → Reach now cb history
    → cb.state ≢ closed
    → now + open_duration_default ≤ later
    → NoSuccess later (is_available later cb).1 failed_at probed
    → NoSuccess failed_at (record_failure failed_at probed) next retried
    → next < failed_at + open_duration_default
    → ((is_available later cb).0 ≡ true)
      × ((is_available next retried).0 ≡ false)
      × (record_success probed ≡ new)
      × (record_success retried ≡ new)
unfolding is_available record_failure
recovers now later failed_at next cb probed retried history r n h s s' k =
    let half = probing now later cb cb.state refl n (reach-IsBreaker now cb history r) h in
    let (_, r') =
      reach-NoSuccess later (is_available later cb).1 failed_at probed history
        (asked (passed later (omega (arith, h)) r)) s in
    let (_, r'') =
      reach-NoSuccess failed_at (record_failure failed_at probed) next retried _ (failed r') s' in
    let b = reach-IsBreaker failed_at probed _ r' in
    let open_state =
      not_closed-NoSuccess later (is_available later cb).1 failed_at probed
        (asked-not_closed later cb cb.state refl n) s in
    let shut =
      failure-IsShut failed_at failed_at probed probed.state refl open_state b.duration
        (omega arith) in
    let refused =
      refused-IsShut next failed_at retried k
        (NoSuccess-IsShut failed_at (record_failure failed_at probed) next retried k shut s') in
    (
      rw half refl,
      rw refused refl,
      success-new failed_at probed b,
      success-new next retried (reach-IsBreaker next retried _ r''),
    )

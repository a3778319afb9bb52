-- ===== src/Fork/Rpc/Outage.antt =====
-- What requests cost while the primary is down.
use ciel_sol.Base.{
  ℕ, ◌+◌, ◌≤◌, ◌<◌, ◌≡◌, refl, Bool, true, false, List, [], ◌∷◌, ◌++◌, Option, some, leb,
  if◌then◌else◌, arith, ◌⊎◌, inl, inr, Bool-cases, length, map, length-append, ap, ◌∙◌,
}
use ciel_sol.Checkers.Json.{Pubkey}
use ciel_sol.Fork.Account.{Account}
use ciel_sol.Fork.Error.{ForkError}
use ciel_sol.Fork.Breaker.{
  closed, opened, CircuitBreaker, new, is_available, record_failure, prune, available_in, failed_in,
  open_duration_default, failure_window_default, failure_threshold_default,
}
use ciel_sol.Fork.Breaker.Window.{IsAscending, IsAscending-push, IsAscending-le, prune-all}
use ciel_sol.Fork.Rpc.{
  Reply, answered, refused, timed_out, Request, fetch_account, fallback_account, replied_account,
}

abbrev pub Fetch : Type 0
Fetch = Pubkey × Request (Option Account)

-- How many of the requests, one after the other, wait for the primary.
unfoldable pub tries : CircuitBreaker → List Fetch → ℕ
unfolding is_available fetch_account
tries cb [] = 0
tries cb ((pubkey, q) ∷ qs) =
    (if (is_available q.asked_at cb).0 then 1 else 0) + tries (fetch_account pubkey q cb).1 qs

-- What the requests return.
unfoldable pub outcomes : CircuitBreaker → List Fetch → List (ForkError ⊎ Account)
unfolding fetch_account
outcomes cb [] = []
outcomes cb ((pubkey, q) ∷ qs) =
    (fetch_account pubkey q cb).0 ∷ outcomes (fetch_account pubkey q cb).1 qs

abbrev pub fallback_of : Fetch → ForkError ⊎ Account
fallback_of (pubkey, q) = fallback_account pubkey q.fallback

abbrev pub is_answered : {A : Type 0} → Reply A → Bool
is_answered (answered a) = true
is_answered (refused e) = false
is_answered timed_out = false

-- Requests from one time to another, one after the other, none of which the primary answers.
abbrev pub IsOutage : ℕ → ℕ → List Fetch → Type 0
IsOutage lo hi [] = lo ≤ hi
IsOutage lo hi ((pubkey, q) ∷ qs) =
    (lo ≤ q.asked_at)
    × (q.asked_at ≤ q.replied_at)
    × (is_answered q.primary ≡ false)
    × ((cb : CircuitBreaker) → q.meanwhile cb ≡ cb)
    × IsOutage q.replied_at hi qs

IsOutage-le : (lo hi : ℕ) (qs : List Fetch) → IsOutage lo hi qs → lo ≤ hi
IsOutage-le lo hi [] h = h
IsOutage-le lo hi ((pubkey, q) ∷ qs) h = omega (arith, h.0, h.1, IsOutage-le q.replied_at hi qs h.4)

replied_account-outage :
    (pubkey : Pubkey) (q : Request (Option Account)) (cb : CircuitBreaker)
    (r : Reply (Option Account))
    → is_answered r ≡ false
    → replied_account pubkey q cb r ≡ (fallback_of (pubkey, q), record_failure q.replied_at cb)
replied_account-outage pubkey q cb (answered a) h = cc
replied_account-outage pubkey q cb (refused e) h = refl
replied_account-outage pubkey q cb timed_out h = refl

-- One request of an outage.
fetch_account-outage :
    (cb : CircuitBreaker) (pubkey : Pubkey) (q : Request (Option Account))
    → is_answered q.primary ≡ false
    → ((b : CircuitBreaker) → q.meanwhile b ≡ b)
    → fetch_account pubkey q cb ≡ (
      fallback_of (pubkey, q),
      if (is_available q.asked_at cb).0
          then record_failure q.replied_at (is_available q.asked_at cb).1
          else (is_available q.asked_at cb).1,
    )
unfolding fetch_account
fetch_account-outage cb pubkey q h m = elim (Bool-cases (is_available q.asked_at cb).0) [
  | inl e ↦
      rw (e, m (is_available q.asked_at cb).1)
        (replied_account-outage pubkey q (is_available q.asked_at cb).1 q.primary h)
  | inr e ↦ rw e refl
]

shut :
    (now t : ℕ) (cb : CircuitBreaker)
    → cb.state ≡ opened
    → cb.opened_at ≡ some t
    → cb.open_duration ≡ open_duration_default
    → now < t + open_duration_default
    → is_available now cb ≡ (false, cb)
unfolding is_available
shut now t cb e o d h = rw (e, o, d) (ground (arith, e, o, d))

outage-opened :
    (t lo hi : ℕ) (cb : CircuitBreaker) (qs : List Fetch)
    → cb.state ≡ opened
    → cb.opened_at ≡ some t
    → cb.open_duration ≡ open_duration_default
    → hi < t + open_duration_default
    → IsOutage lo hi qs
    → (tries cb qs ≡ 0) × (outcomes cb qs ≡ map fallback_of qs)
unfolding tries outcomes
outage-opened t lo hi cb [] e o d h k = (refl, refl)
outage-opened t lo hi cb ((pubkey, q) ∷ qs) e o d h k =
    let s =
      shut q.asked_at t cb e o d (omega (arith, IsOutage-le q.replied_at hi qs k.4, k.1, h)) in
    let ih = outage-opened t q.replied_at hi cb qs e o d h k.4 in
    rw (fetch_account-outage cb pubkey q k.2 k.3, s)
      (omega (arith, ih.0), ap (λ r. fallback_of (pubkey, q) ∷ r) ih.1)

-- A failure within ten seconds of the oldest drops nothing.
failed_closed :
    (start lo now : ℕ) (cb : CircuitBreaker)
    → cb.state ≡ closed
    → cb.failure_threshold ≡ failure_threshold_default
    → cb.failure_window ≡ failure_window_default
    → IsAscending start lo cb.failures
    → now ≤ start + failure_window_default
    → record_failure now cb ≡ (
        if leb 5 (length (cb.failures ++ (now ∷ [])))
        then record cb {
          state = opened;
          failures = cb.failures ++ (now ∷ []);
          opened_at = some now;
        }
        else record cb { failures = cb.failures ++ (now ∷ []) })
unfolding record_failure
failed_closed start lo now cb e t w a h =
    let all : prune cb.failure_window now cb.failures ≡ cb.failures =
      prune-all cb.failure_window now start lo cb.failures (omega (arith, h, w)) a in
    ap (failed_in now cb) e ∙ ground (arith, t, all)

open_way : (now : ℕ) (cb : CircuitBreaker) → cb.state ≡ closed → is_available now cb ≡ (true, cb)
unfolding is_available
open_way now cb e = ap (available_in now cb) e

outage-closed :
    (start lo hi : ℕ) (cb : CircuitBreaker) (qs : List Fetch)
    → cb.state ≡ closed
    → cb.failure_threshold ≡ failure_threshold_default
    → cb.failure_window ≡ failure_window_default
    → cb.open_duration ≡ open_duration_default
    → IsAscending start lo cb.failures
    → length cb.failures < 5
    → hi ≤ start + failure_window_default
    → IsOutage lo hi qs
    → (tries cb qs + length cb.failures ≤ 5) × (outcomes cb qs ≡ map fallback_of qs)
unfolding tries outcomes is_available
outage-closed start lo hi cb [] e t w d a n h k = (omega arith, refl)
outage-closed start lo hi cb ((pubkey, q) ∷ qs) e t w d a n h k =
    let until = IsOutage-le q.replied_at hi qs k.4 in
    let from = IsAscending-le start lo cb.failures a in
    let fs = cb.failures ++ (q.replied_at ∷ []) in
    let more = length-append cb.failures (q.replied_at ∷ []) in
    let is_in : q.replied_at ≤ start + failure_window_default = omega (arith, until, h) in
    let pushed = IsAscending-push start lo q.replied_at cb.failures (omega (arith, k.0, k.1)) a in
    rw
      (
        fetch_account-outage cb pubkey q k.2 k.3,
        open_way q.asked_at cb e,
        failed_closed start lo q.replied_at cb e t w a is_in,
      )
      (elim (Bool-cases (leb 5 (length fs))) [
        | inl o ↦
            let ih =
              outage-opened q.replied_at q.replied_at hi
                (record cb { state = opened; failures = fs; opened_at = some q.replied_at }) qs refl
                refl d (omega (arith, h, k.0, k.1, from)) k.4 in
            rw o (omega (arith, ih.0, n), ap (λ r. fallback_of (pubkey, q) ∷ r) ih.1)
        | inr o ↦
            let ih =
              outage-closed start q.replied_at hi (record cb { failures = fs }) qs e t w d pushed
                (ground arith) h k.4 in
            rw o (omega (arith, ih.0, more), ap (λ r. fallback_of (pubkey, q) ∷ r) ih.1)
      ])

-- While the primary is down, requests that come one after the other within ten seconds all get what
-- the fallback answers, and at most five of them wait for the primary.
pub outage :
    (start hi : ℕ) (qs : List Fetch)
    → IsOutage start hi qs
    → hi ≤ start + failure_window_default
    → (tries new qs ≤ 5) × (outcomes new qs ≡ map fallback_of qs)
outage start hi qs k h =
    let both =
      outage-closed start start hi new qs refl refl refl refl (omega arith) (omega arith) h k in
    (omega (arith, both.0), both.1)

-- ===== src/Examples/Rpc.antt =====
-- The circuit breaker, the failover and the stream.
use ciel_sol.Base.{
  ◌≤◌, ◌≡◌, ◌≢◌, refl, true, false, none, some, List, [], ◌∷◌, inl, inr, arith, map, ◌↔◌, Option,
  ◌==◌, if◌then◌else◌, is_empty, ltb, ◌-◌,
}
use ciel_sol.Fork.Staleness.{default_config, record_update}
use ciel_sol.Fork.Breaker.{
  closed, opened, CircuitBreaker, new, record_failure, record_success, is_available,
  failure_window_default, prune,
}
use ciel_sol.Fork.Breaker.Window.{count_recent}
use ciel_sol.Fork.Breaker.Reach.{Reach, started, failed, IsBreaker, reach-IsBreaker}
use ciel_sol.Fork.Breaker.Opening.{record_failure-opens_iff}
use ciel_sol.Fork.Breaker.Recovery.{nothing_yet, waits, asks, fails, recovers}
use ciel_sol.Fork.Rpc.{Request, answered, timed_out, refused, fetch_multiple_accounts, get_slot}
use ciel_sol.Fork.Rpc.Outage.{Fetch, IsOutage, tries, outcomes, fallback_of, outage}
use ciel_sol.Checkers.Json.{Pubkey}
use ciel_sol.Fork.Account.{Account}
use ciel_sol.Fork.Cache.{monitored_keys}
use ciel_sol.Fork.Cache.Laws.{peek}
use ciel_sol.Fork.Geyser.{RpcOps, Subscriber, contains, rpc_gap_fill}
use ciel_sol.Fork.Geyser.GapFill.{IsServed, refreshed, rpc_gap_fill-refreshed}

-- Four failures at the start, and a fifth.
abbrev four : CircuitBreaker
four = record_failure 0 (record_failure 0 (record_failure 0 (record_failure 0 new)))

four-Reach : Reach 0 four (0 ∷ 0 ∷ 0 ∷ 0 ∷ [])
four-Reach = failed (failed (failed (failed started)))

four-closed : four.state ≡ closed
unfolding record_failure prune
four-closed = refl

record_failure-opens_iff_example :
    ((record_failure 0 four).state ≡ opened)
    ↔ (5 ≤ count_recent failure_window_default 0 (0 ∷ 0 ∷ 0 ∷ 0 ∷ 0 ∷ []))
record_failure-opens_iff_example =
    record_failure-opens_iff 0 four (0 ∷ 0 ∷ 0 ∷ 0 ∷ []) four-Reach four-closed

reach-IsBreaker_example : IsBreaker 0 four
reach-IsBreaker_example = reach-IsBreaker 0 four (0 ∷ 0 ∷ 0 ∷ 0 ∷ []) four-Reach

five-not_closed : (record_failure 0 four).state ≢ closed
unfolding record_failure prune
five-not_closed e = cc

-- Open at the start, and half open thirty seconds later, when a second request is let through too.
-- Each of the two fails, one a second after the other, and a third request is refused.
abbrev second_probe : CircuitBreaker
second_probe = (is_available 30000000000 (is_available 30000000000 (record_failure 0 four)).1).1

abbrev reopened : CircuitBreaker
reopened =
    (is_available 32000000000
      (record_failure 32000000000 (record_failure 31000000000 second_probe))).1

recovers_example :
    ((is_available 30000000000 (record_failure 0 four)).0 ≡ true)
    × ((is_available 60000000000 reopened).0 ≡ false)
    × (record_success second_probe ≡ new)
    × (record_success reopened ≡ new)
recovers_example =
    recovers 0 30000000000 31000000000 60000000000 (record_failure 0 four) second_probe reopened
      (0 ∷ 0 ∷ 0 ∷ 0 ∷ 0 ∷ []) (failed four-Reach) five-not_closed (omega arith)
      (waits 31000000000 (omega arith) (asks nothing_yet))
      (waits 60000000000 (omega arith) (asks (fails (waits 32000000000 (omega arith) nothing_yet))))
      (omega arith)

-- Two requests while the primary is down.
abbrev requests : List Fetch
requests =
    (
      7,
      record {
        asked_at = 10;
        meanwhile = λ cb. cb;
        primary = timed_out;
        replied_at = 20;
        fallback = inr none;
      },
    )
    ∷ (
      8,
      record {
        asked_at = 30;
        meanwhile = λ cb. cb;
        primary = refused "down";
        replied_at = 40;
        fallback = inl "down too";
      },
    )
    ∷ []

is_outage : IsOutage 0 50 requests
is_outage = (
  omega arith,
  omega arith,
  refl,
  λ cb. refl,
  (omega arith, omega arith, refl, λ cb. refl, omega arith),
)

outage_example : (tries new requests ≤ 5) × (outcomes new requests ≡ map fallback_of requests)
outage_example = outage 0 50 requests is_outage (omega arith)

-- A chain that holds account 9 and no other, and a manager whose two providers answer from it.
abbrev chain : Pubkey → Option Account
chain k =
    if k == 9
    then some (record { lamports = 70; bytes = []; owner = 0; executable = false; rent_epoch = 0 })
    else none

abbrev held : Account
held = record { lamports = 3; bytes = []; owner = 0; executable = false; rent_epoch = 0 }

abbrev request_of : {A : Type 0} → A → Request A
request_of a = record {
  asked_at = 400;
  meanwhile = λ cb. cb;
  primary = answered a;
  replied_at = 410;
  fallback = inr a;
}

abbrev manager : RpcOps CircuitBreaker
manager = record {
  fetch_multiple_accounts = λ cb keys. fetch_multiple_accounts (request_of (map chain keys)) cb;
  get_slot = λ cb. get_slot (request_of 350) cb;
}

manager-IsServed : IsServed chain 350 manager
unfolding fetch_multiple_accounts get_slot
manager-IsServed = record { batch = λ cb keys h. ground arith; current = λ cb. ground arith }

-- Account 8 is monitored, and not on the chain; account 9 is monitored, and was stored long ago.
abbrev subscriber : Subscriber
subscriber = record {
  cache = record {
    inner =
        (8, record { account = held; inserted_at = 300; is_monitored = true })
        ∷ (9, record { account = held; inserted_at = 0; is_monitored = true })
        ∷ [];
    ttl = 100;
    monitored_ttl = 200;
  };
  staleness = record { last_update = 0; last_slot = 5; config = default_config };
  waiting = [];
  sent = [];
}

rpc_gap_fill-refreshed_example :
    ((rpc_gap_fill manager 400 subscriber new).0.0 ≡ none)
    × ((rpc_gap_fill manager 400 subscriber new).0.1.staleness ≡ (
        if is_empty (monitored_keys subscriber.cache)
        then subscriber.staleness
        else record_update subscriber.staleness 400 350))
    × (peek (rpc_gap_fill manager 400 subscriber new).0.1.cache 500 9
        ≡ refreshed
            (contains (monitored_keys subscriber.cache) 9)
            (ltb 200 (500 - 400))
            (chain 9)
            (peek subscriber.cache 500 9))
    × ((rpc_gap_fill manager 400 subscriber new).0.1.waiting ≡ [])
    × ((rpc_gap_fill manager 400 subscriber new).0.1.sent ≡ [])
rpc_gap_fill-refreshed_example =
    rpc_gap_fill-refreshed chain 400 350 manager manager-IsServed subscriber new 500 9

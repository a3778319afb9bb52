-- ===== src/Examples/Accounts.antt =====
-- The account cache.
use ciel_sol.Base.{arith, ℕ, ◌≡◌, refl, true, false, some, [], ◌∷◌}
use ciel_sol.Fork.Cache.{AccountCache, new, evict_stale, insert, mark_monitored, get, get_read}
use ciel_sol.Fork.Cache.Log.{
  stored, marked_monitored, written, alive, started, passed, inserted, marked, evicted,
}
use ciel_sol.Fork.Cache.Runs.{get-Run}
use ciel_sol.Fork.Cache.Laws.{peek}

-- Account 7, stored at time 100 for 300 time units, and account 8, monitored.
abbrev cache : AccountCache ℕ
cache = record {
  inner =
      (7, record { account = 41; inserted_at = 100; is_monitored = false })
      ∷ (8, record { account = 42; inserted_at = 100; is_monitored = true })
      ∷ [];
  ttl = 300;
  monitored_ttl = 600;
}

-- Account 7 is stored at the start, answered and marked after two hundred seconds, and still there,
-- past an eviction, after five hundred.
abbrev at_start : AccountCache ℕ
at_start = insert new 0 7 41 false

answered_at_200 : peek at_start 200000000000 7 ≡ some 41
unfolding get_read insert new
answered_at_200 = refl

abbrev at_500 : AccountCache ℕ
at_500 = (evict_stale (mark_monitored at_start 7) 500000000000).0

get-Run_example :
    (get at_500 500000000000 7).1
    ≡ alive 500000000000 (written (marked_monitored 7 ∷ stored 0 7 41 false ∷ []) 7)
get-Run_example = get-Run 500000000000 at_500 (marked_monitored 7 ∷ stored 0 7 41 false ∷ []) 7 (
    evicted (
      passed 500000000000 (omega arith) (
        marked 7 41 answered_at_200
          (passed 200000000000 (omega arith) (inserted 7 41 false started)))))

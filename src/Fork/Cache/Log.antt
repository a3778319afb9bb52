-- ===== src/Fork/Cache/Log.antt =====
-- A log of what was written to the cache, and the runs of the operations.
use ciel_sol.Base.{
  ℕ, ◌-◌, ◌*◌, ◌≤◌, ◌≡◌, Bool, true, Option, none, some, List, [], ◌∷◌, ◌==◌, leb, if◌then◌else◌,
}
use ciel_sol.Checkers.Json.{Pubkey}
use ciel_sol.Fork.Cache.{AccountCache, new, get, insert, mark_monitored, evict_stale}
use ciel_sol.Fork.Cache.Laws.{peek}

-- What was written, the last first.
pub data Write (A : Type 0) : Type 0 where
  stored : (at : ℕ) (k : Pubkey) (a : A) (monitored : Bool) → Write A
  marked_monitored : Pubkey → Write A

-- Five minutes, or ten for a monitored account.
abbrev pub lives : ℕ → ℕ → Bool → Bool
lives now at monitored = leb (now - at) ((if monitored then 600 else 300) * 1000000000)

module _ {A : Type 0} where
  abbrev pub monitored_of : Option (A × ℕ × Bool) → Option (A × ℕ × Bool)
  monitored_of none = none
  monitored_of (some (a, at, monitored)) = some (a, at, true)

  -- The last account stored under a key, with its time, and whether it was stored as monitored or
  -- has been marked since.
  abbrev pub written : List (Write A) → Pubkey → Option (A × ℕ × Bool)
  written [] j = none
  written (stored at k a monitored ∷ log) j =
      let rest = written log j in if k == j then some (a, at, monitored) else rest
  written (marked_monitored k ∷ log) j =
      let rest = written log j in if k == j then monitored_of rest else rest

  abbrev pub alive : ℕ → Option (A × ℕ × Bool) → Option A
  alive now none = none
  alive now (some (a, at, monitored)) = if lives now at monitored then some a else none

  -- The time, the cache, and the log. A mark comes while its key is answered: on an expired entry
  -- it would depend on whether the entry has been removed.
  pub data Run : ℕ → AccountCache A → List (Write A) → Type 0 where
    started : Run 0 new []
    passed :
        {now : ℕ} {c : AccountCache A} {log : List (Write A)} (later : ℕ)
        → now ≤ later
        → Run now c log
        → Run later c log
    inserted :
        {now : ℕ} {c : AccountCache A} {log : List (Write A)} (k : Pubkey) (a : A)
        (monitored : Bool)
        → Run now c log
        → Run now (insert c now k a monitored) (stored now k a monitored ∷ log)
    marked :
        {now : ℕ} {c : AccountCache A} {log : List (Write A)} (k : Pubkey) (a : A)
        → peek c now k ≡ some a
        → Run now c log
        → Run now (mark_monitored c k) (marked_monitored k ∷ log)
    got :
        {now : ℕ} {c : AccountCache A} {log : List (Write A)} (k : Pubkey)
        → Run now c log
        → Run now (get c now k).0 log
    evicted :
        {now : ℕ} {c : AccountCache A} {log : List (Write A)}
        → Run now c log
        → Run now (evict_stale c now).0 log

-- ===== src/Fork/Cache.antt =====
-- crates/ciel-fork/src/cache.rs. Time is a count of nanoseconds, read by the caller; `Account` is a
-- library type, a parameter. One operation of the map is one atomic step.
pub mod Laws
pub mod Evict
pub mod Log
pub mod Runs
use ciel_sol.Base.{
  ℕ, zero, suc, ◌+◌, ◌-◌, ◌*◌, Bool, true, false, Option, none, some, List, [], ◌∷◌, ◌==◌, ltb, leb,
  if◌then◌else◌, length, is_empty,
}
use ciel_sol.Checkers.Json.{Pubkey}

pub record TimestampedAccount (A : Type 0) : Type 0 where
  pub account : A
  pub inserted_at : ℕ
  pub is_monitored : Bool

abbrev pub Entries : Type 0 → Type 0
Entries A = List (Pubkey × TimestampedAccount A)

pub record AccountCache (A : Type 0) : Type 0 where
  pub inner : Entries A
  pub ttl : ℕ
  pub monitored_ttl : ℕ

-- `Duration::from_secs`
abbrev pub from_secs : ℕ → ℕ
from_secs n = n * 1000000000

module _ {A : Type 0} where
  unfoldable pub with_ttl : ℕ → ℕ → AccountCache A
  with_ttl ttl_secs monitored_ttl_secs = record {
    inner = [];
    ttl = from_secs ttl_secs;
    monitored_ttl = from_secs monitored_ttl_secs;
  }

  unfoldable pub new : AccountCache A
  new = record { inner = []; ttl = from_secs 300; monitored_ttl = from_secs 600 }

  -- The operations of the map: one entry for a key.
  unfoldable pub find : Entries A → Pubkey → Option (TimestampedAccount A)
  find [] k = none
  find ((j, e) ∷ m) k = if j == k then some e else find m k

  unfoldable pub put : Entries A → Pubkey → TimestampedAccount A → Entries A
  put [] k e = (k, e) ∷ []
  put ((j, d) ∷ m) k e = if j == k then (k, e) ∷ m else (j, d) ∷ put m k e

  unfoldable pub erase : Entries A → Pubkey → Entries A
  erase [] k = []
  erase ((j, d) ∷ m) k = if j == k then m else (j, d) ∷ erase m k

  unfoldable pub effective_ttl : AccountCache A → TimestampedAccount A → ℕ
  effective_ttl c e = if e.is_monitored then c.monitored_ttl else c.ttl

  -- `entry.inserted_at.elapsed() > effective_ttl`
  unfoldable pub is_expired : AccountCache A → ℕ → TimestampedAccount A → Bool
  unfolding effective_ttl
  is_expired c now e = ltb (effective_ttl c e) (now - e.inserted_at)

  -- `self.inner.remove(pubkey)`
  unfoldable pub remove : AccountCache A → Pubkey → AccountCache A
  unfolding erase
  remove c k = record c { inner = erase c.inner k }

  -- The lookup and the test of `get`; the flag asks for the removal that follows on expiry, as a
  -- step of its own.
  unfoldable pub get_read : AccountCache A → ℕ → Pubkey → Option A × Bool
  unfolding find is_expired
  get_read c now k = elim (find c.inner k) [
    | none ↦ (none, false)
    | some e ↦ if is_expired c now e then (none, true) else (some e.account, false)
  ]

  unfoldable pub get : AccountCache A → ℕ → Pubkey → AccountCache A × Option A
  unfolding get_read remove
  get c now k = let (found, stale) = get_read c now k in (if stale then remove c k else c, found)

  unfoldable pub insert : AccountCache A → ℕ → Pubkey → A → Bool → AccountCache A
  unfolding put
  insert c now k account monitored = record c {
    inner =
        put c.inner k (record { account = account; inserted_at = now; is_monitored = monitored });
  }

  unfoldable pub mark : Entries A → Pubkey → Entries A
  mark [] k = []
  mark ((j, e) ∷ m) k =
      if j == k then (j, record e { is_monitored = true }) ∷ m else (j, e) ∷ mark m k

  unfoldable pub mark_monitored : AccountCache A → Pubkey → AccountCache A
  unfolding mark
  mark_monitored c k = record c { inner = mark c.inner k }

  unfoldable pub retain : AccountCache A → ℕ → Entries A → Entries A
  retain c now [] = []
  retain c now ((j, e) ∷ m) =
      let rest = retain c now m in if is_expired c now e then rest else (j, e) ∷ rest

  unfoldable pub evict_stale : AccountCache A → ℕ → AccountCache A × ℕ
  unfolding retain
  evict_stale c now =
      let kept = retain c now c.inner in (record c { inner = kept }, length c.inner - length kept)

  unfoldable pub len : AccountCache A → ℕ
  len c = length c.inner

  unfoldable pub is_empty_cache : AccountCache A → Bool
  is_empty_cache c = is_empty c.inner

  unfoldable pub keys_monitored : Entries A → List Pubkey
  keys_monitored [] = []
  keys_monitored ((j, e) ∷ m) =
      let rest = keys_monitored m in if e.is_monitored then j ∷ rest else rest

  unfoldable pub monitored_keys : AccountCache A → List Pubkey
  unfolding keys_monitored
  monitored_keys c = keys_monitored c.inner

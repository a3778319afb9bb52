-- ===== src/Fork/Cache/Laws.antt =====
-- Each operation as a change of what `get` answers.
use ciel_sol.Base.{
  ℕ, ◌-◌, ◌≤◌, ◌≡◌, refl, Bool, true, Option, none, some, [], ◌∷◌, ◌==◌, ltb, if◌then◌else◌, arith,
}
use ciel_sol.Checkers.Json.{Pubkey}
use ciel_sol.Fork.Cache.{
  TimestampedAccount, Entries, AccountCache, find, put, erase, effective_ttl, is_expired, remove,
  get_read, get, insert, mark, mark_monitored,
}

module _ {A : Type 0} where
  -- What a lookup at a time answers.
  abbrev pub peek : AccountCache A → ℕ → Pubkey → Option A
  peek c now k = (get_read c now k).0

  -- Each key has one entry.
  abbrev pub IsKeyed : Entries A → Type 0
  IsKeyed [] = Unit
  IsKeyed ((j, e) ∷ m) = (find m j ≡ none) × IsKeyed m

  pub find-put :
      (m : Entries A) (k j : Pubkey) (e : TimestampedAccount A)
      → find (put m k e) j ≡ (if k == j then some e else find m j)
  unfolding find put
  find-put [] k j e = refl
  find-put ((i, d) ∷ m) k j e = ground (arith, find-put m k j e)

  pub find-erase :
      (m : Entries A) (k j : Pubkey)
      → IsKeyed m
      → find (erase m k) j ≡ (if k == j then none else find m j)
  unfolding find erase
  find-erase [] k j w = ground arith
  find-erase ((i, d) ∷ m) k j w = ground (arith, find-erase m k j w.1)

  pub put-IsKeyed :
      (m : Entries A) (k : Pubkey) (e : TimestampedAccount A) → IsKeyed m → IsKeyed (put m k e)
  unfolding put find
  put-IsKeyed [] k e w = (refl, tt)
  put-IsKeyed ((i, d) ∷ m) k e w = ground (arith, put-IsKeyed m k e w.1, find-put m k i e)

  pub erase-IsKeyed : (m : Entries A) (k : Pubkey) → IsKeyed m → IsKeyed (erase m k)
  unfolding erase
  erase-IsKeyed [] k w = tt
  erase-IsKeyed ((i, d) ∷ m) k w = ground (arith, erase-IsKeyed m k w.1, find-erase m k i w.1)

  abbrev pub mark_entry : Option (TimestampedAccount A) → Option (TimestampedAccount A)
  mark_entry none = none
  mark_entry (some e) = some (record e { is_monitored = true })

  pub find-mark :
      (m : Entries A) (k j : Pubkey)
      → find (mark m k) j ≡ (if k == j then mark_entry (find m j) else find m j)
  unfolding find mark
  find-mark [] k j = ground arith
  find-mark ((i, d) ∷ m) k j = ground (arith, find-mark m k j)

  pub mark-IsKeyed : (m : Entries A) (k : Pubkey) → IsKeyed m → IsKeyed (mark m k)
  unfolding mark
  mark-IsKeyed [] k w = tt
  mark-IsKeyed ((i, d) ∷ m) k w = ground (arith, mark-IsKeyed m k w.1, find-mark m k i)

  abbrev pub IsValid : AccountCache A → Type 0
  IsValid c = IsKeyed c.inner

  -- Each operation on one account keeps one entry for a key.
  pub cache_ops-IsValid :
      (c : AccountCache A) (now : ℕ) (k : Pubkey) (a : A) (monitored : Bool)
      → IsValid c
      → IsValid (insert c now k a monitored)
        × IsValid (mark_monitored c k)
        × IsValid (remove c k)
        × IsValid (get c now k).0
  unfolding insert mark_monitored remove get
  cache_ops-IsValid c now k a monitored v = (
    put-IsKeyed c.inner k (record { account = a; inserted_at = now; is_monitored = monitored }) v,
    mark-IsKeyed c.inner k v,
    erase-IsKeyed c.inner k v,
    ground (arith, erase-IsKeyed c.inner k v),
  )

  -- An inserted account is read back until its own time to live has passed, under the flag it was
  -- inserted with; every other key answers as before.
  pub peek-insert :
      (c : AccountCache A) (then' now : ℕ) (k j : Pubkey) (a : A) (monitored : Bool)
      → peek (insert c then' k a monitored) now j ≡ (
          if k == j
          then (if ltb (if monitored then c.monitored_ttl else c.ttl) (now - then')
              then none
              else some a)
          else peek c now j)
  unfolding get_read insert is_expired effective_ttl
  peek-insert c then' now k j a monitored = ground (
    arith,
    find-put c.inner k j (record { account = a; inserted_at = then'; is_monitored = monitored }),
  )

  -- On a cache with one entry for a key, a removed key answers nothing, and every other key answers
  -- as before.
  pub peek-remove :
      (c : AccountCache A) (now : ℕ) (k j : Pubkey)
      → IsValid c
      → peek (remove c k) now j ≡ (if k == j then none else peek c now j)
  unfolding get_read remove is_expired effective_ttl
  peek-remove c now k j v = ground (arith, find-erase c.inner k j v)

  stale_stays :
      (c : AccountCache A) (now later : ℕ) (k : Pubkey)
      → now ≤ later
      → (get_read c now k).1 ≡ true
      → peek c later k ≡ none
  unfolding get_read is_expired
  stale_stays c now later k h e = ground arith

  -- On a cache with one entry for a key the lazy removal is not seen: `get` answers as a lookup
  -- does, and after it every key answers as it would have, then and later.
  pub get-unseen :
      (c : AccountCache A) (now later : ℕ) (k j : Pubkey)
      → IsValid c
      → now ≤ later
      → ((get c now k).1 ≡ peek c now k) × (peek (get c now k).0 later j ≡ peek c later j)
  unfolding get
  get-unseen c now later k j v h =
      (refl, ground (arith, peek-remove c later k j v, stale_stays c now later k h))

  -- Where the longer time to live is the monitored one, marking a key loses no answer, and no
  -- other key is touched.
  pub peek-mark_monitored :
      (c : AccountCache A) (now : ℕ) (k j : Pubkey) (a : A)
      → c.ttl ≤ c.monitored_ttl
      → peek c now j ≡ some a
      → peek (mark_monitored c k) now j ≡ some a
  unfolding get_read mark_monitored is_expired effective_ttl
  peek-mark_monitored c now k j a h e = ground (arith, find-mark c.inner k j)

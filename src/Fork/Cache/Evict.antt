-- ===== src/Fork/Cache/Evict.antt =====
-- `evict_stale`: what it drops, and that no lookup sees it.
use ciel_sol.Base.{
  ℕ, suc, ◌+◌, ◌≤◌, ◌≡◌, refl, false, Option, none, some, [], ◌∷◌, if◌then◌else◌, length, arith,
  All,
}
use ciel_sol.Checkers.Json.{Pubkey}
use ciel_sol.Fork.Cache.{
  TimestampedAccount, Entries, AccountCache, find, is_expired, effective_ttl, get_read, retain,
  evict_stale, len,
}
use ciel_sol.Fork.Cache.Laws.{peek, IsKeyed, IsValid}

module _ {A : Type 0} where
  abbrev pub keep_fresh :
      AccountCache A → ℕ → Option (TimestampedAccount A) → Option (TimestampedAccount A)
  keep_fresh c now none = none
  keep_fresh c now (some e) = if is_expired c now e then none else some e

  pub find-retain :
      (c : AccountCache A) (now : ℕ) (m : Entries A) (j : Pubkey)
      → IsKeyed m
      → find (retain c now m) j ≡ keep_fresh c now (find m j)
  unfolding find retain
  find-retain c now [] j w = refl
  find-retain c now ((i, d) ∷ m) j w = ground (arith, find-retain c now m j w.1)

  pub retain-IsKeyed :
      (c : AccountCache A) (now : ℕ) (m : Entries A) → IsKeyed m → IsKeyed (retain c now m)
  unfolding retain
  retain-IsKeyed c now [] w = tt
  retain-IsKeyed c now ((i, d) ∷ m) w =
      ground (arith, retain-IsKeyed c now m w.1, find-retain c now m i w.1)

  -- The number of expired entries.
  abbrev pub count_expired : AccountCache A → ℕ → Entries A → ℕ
  count_expired c now [] = 0
  count_expired c now ((i, d) ∷ m) =
      let rest = count_expired c now m in if is_expired c now d then suc rest else rest

  length-retain :
      (c : AccountCache A) (now : ℕ) (m : Entries A)
      → length (retain c now m) + count_expired c now m ≡ length m
  unfolding retain
  length-retain c now [] = refl
  length-retain c now ((i, d) ∷ m) = ground (arith, length-retain c now m)

  retain-fresh :
      (c : AccountCache A) (now : ℕ) (m : Entries A)
      → All (λ e. is_expired c now e.1 ≡ false) (retain c now m)
  unfolding retain
  retain-fresh c now [] = tt
  retain-fresh c now ((i, d) ∷ m) = ground (arith, retain-fresh c now m)

  -- The number that `evict_stale` returns is that of the expired entries; all entries that stay are
  -- fresh; and the count of entries falls by that number.
  pub evict_stale-count :
      (c : AccountCache A) (now : ℕ)
      → ((evict_stale c now).1 ≡ count_expired c now c.inner)
        × (len (evict_stale c now).0 + (evict_stale c now).1 ≡ len c)
        × All (λ e. is_expired c now e.1 ≡ false) (evict_stale c now).0.inner
  unfolding evict_stale len
  evict_stale-count c now = (
    omega (arith, length-retain c now c.inner),
    omega (arith, length-retain c now c.inner),
    retain-fresh c now c.inner,
  )

  -- On a cache with one entry for a key, no lookup, then or later, tells whether `evict_stale` has
  -- run, and it keeps one entry for a key.
  pub evict_stale-unseen :
      (c : AccountCache A) (now later : ℕ) (j : Pubkey)
      → IsValid c
      → now ≤ later
      → (peek (evict_stale c now).0 later j ≡ peek c later j) × IsValid (evict_stale c now).0
  unfolding evict_stale get_read is_expired effective_ttl
  evict_stale-unseen c now later j v h =
      (ground (arith, find-retain c now c.inner j v), retain-IsKeyed c now c.inner v)

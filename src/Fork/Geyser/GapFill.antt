-- ===== src/Fork/Geyser/GapFill.antt =====
-- What the gap fill leaves in the cache and the tracker.
use ciel_sol.Base.{
  ℕ, ◌-◌, ◌≤◌, ◌≡◌, refl, Bool, true, false, Option, none, some, List, [], ◌∷◌, map, ◌==◌, ltb,
  if◌then◌else◌, length, is_empty, All, any-append, arith, ◌∙◌, inr, Bool-cases, inl, ◌||◌, ◌⊎◌,
}
use ciel_sol.Checkers.Json.{Pubkey}
use ciel_sol.Fork.Account.{Account}
use ciel_sol.Fork.Error.{ForkError}
use ciel_sol.Fork.Cache.{AccountCache, insert, monitored_keys}
use ciel_sol.Fork.Cache.Laws.{peek, peek-insert}
use ciel_sol.Fork.Staleness.{record_update}
use ciel_sol.Fork.Geyser.{
  Subscriber, RpcOps, contains, chunks_100, insert_found, finish_gap, fill_chunks, rpc_gap_fill,
}
use ciel_sol.Fork.Geyser.Chunks.{flatten, flatten-chunks_100, chunks_100-All}

-- What a lookup answers after a key was, or was not, among those that were fetched: the account of
-- the chain while it lives as a monitored one, and else what it answered before.
abbrev pub refreshed : Bool → (expired : Bool) → (fetched old : Option Account) → Option Account
refreshed false expired fetched old = old
refreshed true expired none old = old
refreshed true expired (some a) old = if expired then none else some a

refreshed-twice :
    (b b' expired : Bool) (fetched old : Option Account)
    → refreshed b' expired fetched (refreshed b expired fetched old)
      ≡ refreshed (b || b') expired fetched old
refreshed-twice b b' expired fetched old = ground arith

-- The RPC manager answers each batch of up to a hundred keys with what the chain holds under each
-- of them, and it answers with the slot.
pub record IsServed {R : Type 0} (chain : Pubkey → Option Account) (slot : ℕ) (rpc : RpcOps R)
    : Type 0 where
  pub batch :
      (r : R) (keys : List Pubkey)
      → length keys ≤ 100
      → (rpc.fetch_multiple_accounts r keys).0 ≡ inr (map chain keys)
  pub current : (r : R) → (rpc.get_slot r).0 ≡ inr slot

module _ (chain : Pubkey → Option Account) (now : ℕ) where
  insert_found-monitored_ttl :
      (c : AccountCache Account) (keys : List Pubkey) (accounts : List (Option Account))
      → (insert_found now c keys accounts).monitored_ttl ≡ c.monitored_ttl
  unfolding insert
  insert_found-monitored_ttl c [] accounts = refl
  insert_found-monitored_ttl c (k ∷ keys) [] = refl
  insert_found-monitored_ttl c (k ∷ keys) (none ∷ accounts) =
      insert_found-monitored_ttl c keys accounts
  insert_found-monitored_ttl c (k ∷ keys) (some a ∷ accounts) =
      insert_found-monitored_ttl (insert c now k a true) keys accounts

  same_key : (k j : Pubkey) (o : Option Account) → (k == j) ≡ true → chain k ≡ o → chain j ≡ o
  same_key k j o q e = let same : k ≡ j = ground arith in rw same at e

  -- One answer of a batch.
  found-one :
      (c : AccountCache Account) (later : ℕ) (k j : Pubkey) (o : Option Account)
      → chain k ≡ o
      → peek (insert_found now c (k ∷ []) (o ∷ [])) later j
        ≡ refreshed (k == j) (ltb c.monitored_ttl (later - now)) (chain j) (peek c later j)
  found-one c later k j none e = elim (Bool-cases (k == j)) [
    | inl q ↦ rw (q, same_key k j none q e) refl
    | inr q ↦ rw q refl
  ]
  found-one c later k j (some a) e =
      peek-insert c now later k j a true ∙ elim (Bool-cases (k == j)) [
        | inl q ↦ rw (q, same_key k j (some a) q e) refl
        | inr q ↦ rw q refl
      ]

  found-first :
      (c : AccountCache Account) (k : Pubkey) (keys : List Pubkey) (o : Option Account)
      (accounts : List (Option Account))
      → insert_found now c (k ∷ keys) (o ∷ accounts)
        ≡ insert_found now (insert_found now c (k ∷ []) (o ∷ [])) keys accounts
  found-first c k keys none accounts = refl
  found-first c k keys (some a) accounts = refl

  -- One batch.
  peek-insert_found :
      (c : AccountCache Account) (later : ℕ) (keys : List Pubkey) (j : Pubkey)
      → peek (insert_found now c keys (map chain keys)) later j
        ≡ refreshed (contains keys j) (ltb c.monitored_ttl (later - now)) (chain j) (peek c later j)
  peek-insert_found c later [] j = refl
  peek-insert_found c later (k ∷ keys) j =
      let first = insert_found now c (k ∷ []) (chain k ∷ []) in
      rw
        (
          found-first c k keys (chain k) (map chain keys),
          peek-insert_found first later keys j,
          found-one c later k j (chain k) refl,
          insert_found-monitored_ttl c (k ∷ []) (chain k ∷ []),
        )
        (refreshed-twice (k == j) (contains keys j) (ltb c.monitored_ttl (later - now)) (chain j)
          (peek c later j))

  -- The cache filled by a list of batches.
  abbrev filled : AccountCache Account → List (List Pubkey) → AccountCache Account
  filled c [] = c
  filled c (keys ∷ batches) = filled (insert_found now c keys (map chain keys)) batches

  peek-filled :
      (c : AccountCache Account) (later : ℕ) (batches : List (List Pubkey)) (j : Pubkey)
      → peek (filled c batches) later j
        ≡ refreshed
            (contains (flatten batches) j)
            (ltb c.monitored_ttl (later - now))
            (chain j)
            (peek c later j)
  peek-filled c later [] j = refl
  peek-filled c later (keys ∷ batches) j =
      let first = insert_found now c keys (map chain keys) in
      rw
        (
          peek-filled first later batches j,
          peek-insert_found c later keys j,
          insert_found-monitored_ttl c keys (map chain keys),
          any-append (λ k. k == j) keys (flatten batches),
        )
        (refreshed-twice (contains keys j) (contains (flatten batches) j)
          (ltb c.monitored_ttl (later - now)) (chain j) (peek c later j))

  module _ {R : Type 0} (slot : ℕ) (rpc : RpcOps R) (served : IsServed chain slot rpc) where
    finish_gap-ok :
        (s : Subscriber) (r : R)
        → (finish_gap rpc now s (rpc.get_slot r)).0
          ≡ (none, record s { staleness = record_update s.staleness now slot })
    finish_gap-ok s r = finished (rpc.get_slot r) (served.current r)
      where
        finished :
            (answer : (ForkError ⊎ ℕ) × R)
            → answer.0 ≡ inr slot
            → (finish_gap rpc now s answer).0
              ≡ (none, record s { staleness = record_update s.staleness now slot })
        finished (inl e, r') h = cc
        finished (inr n, r') h = let same : n ≡ slot = cc in rw same refl

    fill_chunks-filled :
        (batches : List (List Pubkey)) (s : Subscriber) (r : R)
        → All (λ keys. length keys ≤ 100) batches
        → (fill_chunks rpc now batches s r).0 ≡ (
          none,
          record s {
            cache = filled s.cache batches;
            staleness = record_update s.staleness now slot;
          },
        )
    unfolding fill_chunks
    fill_chunks-filled [] s r h = finish_gap-ok s r
    fill_chunks-filled (keys ∷ batches) s r h =
        rw (fill_chunks, served.batch r keys h.0)
          (fill_chunks-filled batches
            (record s { cache = insert_found now s.cache keys (map chain keys) })
            (rpc.fetch_multiple_accounts r keys).1 h.1)

    gap_fill-filled :
        (keys : List Pubkey) (s : Subscriber) (r : R)
        → (if is_empty keys
            then ((none, s), r)
            else fill_chunks rpc now (chunks_100 (length keys) keys) s r).0
          ≡ (
            none,
            record s {
              cache = filled s.cache (chunks_100 (length keys) keys);
              staleness = if is_empty keys then s.staleness else record_update s.staleness now slot;
            },
          )
    unfolding chunks_100
    gap_fill-filled [] s r = refl
    gap_fill-filled (k ∷ keys) s r =
        fill_chunks-filled (chunks_100 (length (k ∷ keys)) (k ∷ keys)) s r
          (chunks_100-All (length (k ∷ keys)) (k ∷ keys))

    -- Where the RPC manager answers every batch of up to a hundred keys with what the chain holds
    -- under each key, and answers with the slot, and nothing else changes the cache meanwhile, the
    -- gap fill ends without an error, and the tracker has the slot and the time if any key is
    -- monitored. Every monitored key that the chain holds is then answered with the account of the
    -- chain for as long as monitored accounts live, and no longer; every other key is answered as
    -- without the gap fill. What waits and what was sent stay as they are.
    pub rpc_gap_fill-refreshed :
        (s : Subscriber) (r : R) (later : ℕ) (j : Pubkey)
        → ((rpc_gap_fill rpc now s r).0.0 ≡ none)
          × ((rpc_gap_fill rpc now s r).0.1.staleness ≡ (
              if is_empty (monitored_keys s.cache)
              then s.staleness
              else record_update s.staleness now slot))
          × (peek (rpc_gap_fill rpc now s r).0.1.cache later j
              ≡ refreshed
                  (contains (monitored_keys s.cache) j)
                  (ltb s.cache.monitored_ttl (later - now))
                  (chain j)
                  (peek s.cache later j))
          × ((rpc_gap_fill rpc now s r).0.1.waiting ≡ s.waiting)
          × ((rpc_gap_fill rpc now s r).0.1.sent ≡ s.sent)
    unfolding rpc_gap_fill
    rpc_gap_fill-refreshed s r later j =
        let keys = monitored_keys s.cache in
        let looked =
          rw (flatten-chunks_100 (length keys) keys (omega arith)) at
            (peek-filled s.cache later (chunks_100 (length keys) keys) j) in
        rw (gap_fill-filled keys s r) (refl, refl, looked, refl, refl)

-- ===== src/Fork/Geyser/Updates.antt =====
-- What an update from the stream leaves for the reads and the reconnections that follow.
use ciel_sol.Base.{
  ℕ, ◌-◌, ◌≤◌, ◌≡◌, refl, Bool, true, Bool-cases, some, List, [], ◌∷◌, ◌++◌, ◌==◌, ◌||◌,
  if◌then◌else◌, any-append, arith, inl, inr, ap, ◌∙◌, ==_refl,
}
use ciel_sol.Checkers.Json.{Pubkey}
use ciel_sol.Fork.Account.{Account}
use ciel_sol.Fork.Cache.{
  Entries, TimestampedAccount, insert, get, put, keys_monitored, monitored_keys,
}
use ciel_sol.Fork.Cache.Laws.{peek-insert}
use ciel_sol.Fork.Staleness.{record_update}
use ciel_sol.Fork.Geyser.{
  GeyserConfig, AccountInfo, Subscriber, SubscribeRequest, filters, pong, key_of_bytes, account_of,
  handle_account_update, contains, push_missing, build_subscribe_request,
}

-- The keys that a request lists.
abbrev pub requested : SubscribeRequest → List Pubkey
requested (filters keys from_slot) = keys
requested pong = []

or_true : (b : Bool) → (b || true) ≡ true
or_true b = ground arith

pushed :
    (keys : List Pubkey) (m k : Pubkey) (rest : Bool)
    → (contains (if contains keys m then keys else keys ++ (m ∷ [])) k || rest)
      ≡ (contains keys k || ((m == k) || rest))
pushed keys m k rest = elim (Bool-cases (contains keys m)) [
  | inl e ↦ elim (Bool-cases (m == k)) [
    | inl q ↦ let same : m ≡ k = ground arith in rw (e, same, rw same at e) refl
    | inr q ↦ rw (e, q) refl
  ]
  | inr e ↦ rw e (ground (arith, any-append (λ j. j == k) keys (m ∷ [])))
]

contains-push_missing :
    (keys more : List Pubkey) (k : Pubkey)
    → contains (push_missing keys more) k ≡ (contains keys k || contains more k)
unfolding push_missing
contains-push_missing keys [] k = ground arith
contains-push_missing keys (m ∷ more) k =
    contains-push_missing (if contains keys m then keys else keys ++ (m ∷ [])) more k
    ∙ pushed keys m k (contains more k)

keys_monitored-put :
    (m : Entries Account) (k : Pubkey) (e : TimestampedAccount Account)
    → e.is_monitored ≡ true
    → contains (keys_monitored (put m k e)) k ≡ true
unfolding keys_monitored put
keys_monitored-put [] k e h = ground arith
keys_monitored-put ((j, d) ∷ m) k e h = ground (arith, keys_monitored-put m k e h)

-- After an update with an account under a valid key, the tracker has its slot and time, the cache
-- answers with the account for as long as monitored accounts live, and every later request for a
-- subscription made from that cache lists the key beside the initial ones.
pub handle_account_update-kept :
    (config : GeyserConfig) (now later from_slot slot : ℕ) (info : AccountInfo) (k : Pubkey)
    (s : Subscriber)
    → key_of_bytes info.pubkey ≡ some k
    → later - now ≤ s.cache.monitored_ttl
    → ((handle_account_update now (record { slot = slot; account = some info }) s).staleness
        ≡ record_update s.staleness now slot)
      × ((get
            (handle_account_update now (record { slot = slot; account = some info }) s).cache
            later
            k).1
          ≡ some (account_of info))
      × (contains
            (requested (
              build_subscribe_request config
                (handle_account_update now (record { slot = slot; account = some info }) s).cache
                from_slot))
            k
          ≡ true)
unfolding handle_account_update build_subscribe_request get insert monitored_keys
handle_account_update-kept config now later from_slot slot info k s e h =
    let entry : TimestampedAccount Account = record {
      account = account_of info;
      inserted_at = now;
      is_monitored = true;
    } in
    rw e (
      refl,
      peek-insert s.cache now later k k (account_of info) true ∙ ground (arith, ==_refl k),
      contains-push_missing config.initial_accounts (keys_monitored (put s.cache.inner k entry)) k
          ∙ (ap (λ b. contains config.initial_accounts k || b)
                (keys_monitored-put s.cache.inner k entry refl)
              ∙ or_true (contains config.initial_accounts k)),
    )

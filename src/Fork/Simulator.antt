-- ===== src/Fork/Simulator.antt =====
-- crates/ciel-fork/src/simulator.rs: the fork with its cache. LiteSVM, the RPC manager and the keys
-- of the sysvars are parameters, and the clock reads the same throughout one operation.
pub mod Loads
use ciel_sol.Base.{
  ℕ, Bool, true, false, Option, none, some, List, [], ◌∷◌, String, ◌⊎◌, inl, inr, if◌then◌else◌,
  is_empty, replicate,
}
use ciel_sol.Checkers.Json.{Pubkey}
use ciel_sol.Fork.Account.{Account}
use ciel_sol.Fork.Error.{ForkError, account_not_found, config, lite_svm}
use ciel_sol.Fork.Cache.{AccountCache, get, insert, new}

-- The calls of LiteSVM and of the RPC manager.
pub record Libraries (Svm R : Type 0) : Type 0 where
  pub set_account : Svm → Pubkey → Account → String ⊎ Svm
  pub fetch_account : R → Pubkey → (ForkError ⊎ Account) × R
  pub fetch_multiple_accounts : R → List Pubkey → (ForkError ⊎ List (Option Account)) × R
  pub get_slot : R → (ForkError ⊎ ℕ) × R
  pub get_latest_blockhash : R → (ForkError ⊎ List ℕ) × R

-- `online` says whether there is an RPC manager.
pub record ForkSimulator (Svm : Type 0) : Type 0 where
  pub svm : Svm
  pub cache : AccountCache Account
  pub online : Bool
  pub pinned_slot : ℕ
  pub pinned_blockhash : List ℕ

abbrev pub offline_error : ForkError
offline_error = config "RPC not configured (offline mode)"

abbrev pub default_hash : List ℕ
default_hash = replicate 32 0

abbrev put_first :
    Account
    → (ForkError ⊎ List Account) × AccountCache Account
    → (ForkError ⊎ List Account) × AccountCache Account
put_first a (inl e, cache) = (inl e, cache)
put_first a (inr accounts, cache) = (inr (a ∷ accounts), cache)

module _ {Svm R : Type 0} (lib : Libraries Svm R) (now : ℕ) where
  -- On an instance of LiteSVM with the builtins and its default sysvars.
  unfoldable pub new_offline : Svm → ForkSimulator Svm
  new_offline svm = record {
    svm = svm;
    cache = new;
    online = false;
    pinned_slot = 0;
    pinned_blockhash = default_hash;
  }

  abbrev pub injected :
      Account → ForkSimulator Svm → String ⊎ Svm → (ForkError ⊎ Account) × ForkSimulator Svm
  injected account s (inl e) = (inl (lite_svm e), s)
  injected account s (inr svm) = (inr account, record s { svm = svm })

  -- `set_account` of LiteSVM, whose error ends the operation.
  abbrev pub inject :
      Pubkey → Account → ForkSimulator Svm → (ForkError ⊎ Account) × ForkSimulator Svm
  inject pubkey account s = injected account s (lib.set_account s.svm pubkey account)

  abbrev set_done :
      Pubkey → Account → ForkSimulator Svm → String ⊎ Svm → Option ForkError × ForkSimulator Svm
  set_done pubkey account s (inl e) = (some (lite_svm e), s)
  set_done pubkey account s (inr svm) =
      (none, record s { svm = svm; cache = insert s.cache now pubkey account false })

  unfoldable pub set_account :
      Pubkey → Account → ForkSimulator Svm → Option ForkError × ForkSimulator Svm
  set_account pubkey account s = set_done pubkey account s (lib.set_account s.svm pubkey account)

  abbrev pub fetched :
      Pubkey
      → ForkSimulator Svm
      → (ForkError ⊎ Account) × R
      → ((ForkError ⊎ Account) × ForkSimulator Svm) × R
  fetched pubkey s (inl e, r) = ((inl e, s), r)
  fetched pubkey s (inr account, r) =
      (inject pubkey account (record s { cache = insert s.cache now pubkey account false }), r)

  abbrev pub found_or_fetched :
      Pubkey
      → ForkSimulator Svm
      → R
      → Option Account
      → ((ForkError ⊎ Account) × ForkSimulator Svm) × R
  found_or_fetched pubkey s r (some account) = (inject pubkey account s, r)
  found_or_fetched pubkey s r none =
      if s.online
      then fetched pubkey s (lib.fetch_account r pubkey)
      else ((inl offline_error, s), r)

  unfoldable pub load_account :
      Pubkey → ForkSimulator Svm → R → ((ForkError ⊎ Account) × ForkSimulator Svm) × R
  load_account pubkey s r =
      found_or_fetched pubkey (record s { cache = (get s.cache now pubkey).0 }) r
        (get s.cache now pubkey).1

  -- The partition of `load_accounts`: what the cache answers for each key.
  unfoldable pub look_up :
      AccountCache Account → List Pubkey → List (Option Account) × AccountCache Account
  look_up cache [] = ([], cache)
  look_up cache (k ∷ ks) =
      let rest = look_up (get cache now k).0 ks in ((get cache now k).1 ∷ rest.0, rest.1)

  abbrev pub uncached : List Pubkey → List (Option Account) → List Pubkey
  uncached [] found = []
  uncached (k ∷ ks) [] = []
  uncached (k ∷ ks) (none ∷ found) = k ∷ uncached ks found
  uncached (k ∷ ks) (some a ∷ found) = uncached ks found

  -- The fetched accounts, in the places of the uncached keys; a reply has one item for a key.
  abbrev pub merge :
      List Pubkey
      → List (Option Account)
      → List (Option Account)
      → AccountCache Account
      → (ForkError ⊎ List Account) × AccountCache Account
  merge [] found reply cache = (inr [], cache)
  merge (k ∷ ks) [] reply cache = (inr [], cache)
  merge (k ∷ ks) (some a ∷ found) reply cache = put_first a (merge ks found reply cache)
  merge (k ∷ ks) (none ∷ found) [] cache = (inl (account_not_found k), cache)
  merge (k ∷ ks) (none ∷ found) (none ∷ reply) cache = (inl (account_not_found k), cache)
  merge (k ∷ ks) (none ∷ found) (some a ∷ reply) cache =
      put_first a (merge ks found reply (insert cache now k a false))

  -- The loop that injects all accounts; an error ends it.
  unfoldable pub inject_all : List Pubkey → List Account → Svm → Option ForkError × Svm
  inject_all [] accounts svm = (none, svm)
  inject_all (k ∷ ks) [] svm = (none, svm)
  inject_all (k ∷ ks) (a ∷ accounts) svm = elim (lib.set_account svm k a) [
    | inl e ↦ (some (lite_svm e), svm)
    | inr next ↦ inject_all ks accounts next
  ]

  abbrev all_injected :
      List Account
      → ForkSimulator Svm
      → Option ForkError × Svm
      → (ForkError ⊎ List Account) × ForkSimulator Svm
  all_injected accounts s (none, svm) = (inr accounts, record s { svm = svm })
  all_injected accounts s (some e, svm) = (inl e, record s { svm = svm })

  abbrev merged :
      List Pubkey
      → ForkSimulator Svm
      → (ForkError ⊎ List Account) × AccountCache Account
      → (ForkError ⊎ List Account) × ForkSimulator Svm
  merged keys s (inl e, cache) = (inl e, record s { cache = cache })
  merged keys s (inr accounts, cache) =
      all_injected accounts (record s { cache = cache }) (inject_all keys accounts s.svm)

  abbrev batch :
      List Pubkey
      → List (Option Account)
      → ForkSimulator Svm
      → (ForkError ⊎ List (Option Account)) × R
      → ((ForkError ⊎ List Account) × ForkSimulator Svm) × R
  batch keys found s (inl e, r) = ((inl e, s), r)
  batch keys found s (inr reply, r) = (merged keys s (merge keys found reply s.cache), r)

  unfoldable pub load_accounts :
      List Pubkey → ForkSimulator Svm → R → ((ForkError ⊎ List Account) × ForkSimulator Svm) × R
  unfolding look_up inject_all
  load_accounts keys s r =
      let (found, cache) = look_up s.cache keys in
      let s' : ForkSimulator Svm = record s { cache = cache } in
      let missing = uncached keys found in
      if is_empty missing
      then (merged keys s' (merge keys found [] cache), r)
      else if s.online
      then batch keys found s' (lib.fetch_multiple_accounts r missing)
      else ((inl offline_error, s'), r)

  -- The loop over the sysvars: one that cannot be fetched is left as LiteSVM has it.
  unfoldable pub load_sysvars :
      List Pubkey → ForkSimulator Svm → R → (Option ForkError × ForkSimulator Svm) × R
  load_sysvars [] s r = ((none, s), r)
  load_sysvars (k ∷ ks) s r = elim (lib.fetch_account r k).0 [
    | inl e ↦ load_sysvars ks s (lib.fetch_account r k).1
    | inr account ↦ elim (lib.set_account s.svm k account) [
      | inl e ↦ ((some (lite_svm e), s), (lib.fetch_account r k).1)
      | inr svm ↦
          load_sysvars ks (record s { svm = svm; cache = insert s.cache now k account true })
            (lib.fetch_account r k).1
    ]
  ]

  abbrev with_blockhash :
      List Pubkey
      → ForkSimulator Svm
      → (ForkError ⊎ List ℕ) × R
      → (Option ForkError × ForkSimulator Svm) × R
  with_blockhash sysvar_ids s (inl e, r) = ((some e, s), r)
  with_blockhash sysvar_ids s (inr hash, r) =
      load_sysvars sysvar_ids (record s { pinned_blockhash = hash }) r

  abbrev with_slot :
      List Pubkey
      → ForkSimulator Svm
      → (ForkError ⊎ ℕ) × R
      → (Option ForkError × ForkSimulator Svm) × R
  with_slot sysvar_ids s (inl e, r) = ((some e, s), r)
  with_slot sysvar_ids s (inr slot, r) =
      with_blockhash sysvar_ids (record s { pinned_slot = slot }) (lib.get_latest_blockhash r)

  unfoldable pub init_sysvars :
      List Pubkey → ForkSimulator Svm → R → (Option ForkError × ForkSimulator Svm) × R
  unfolding load_sysvars
  init_sysvars sysvar_ids s r =
      if s.online then with_slot sysvar_ids s (lib.get_slot r) else ((some offline_error, s), r)

  abbrev started : (Option ForkError × ForkSimulator Svm) × R → (ForkError ⊎ ForkSimulator Svm) × R
  started ((none, s), r) = (inr s, r)
  started ((some e, s), r) = (inl e, r)

  unfoldable pub with_rpc : List Pubkey → Svm → R → (ForkError ⊎ ForkSimulator Svm) × R
  unfolding init_sysvars
  with_rpc sysvar_ids svm r = started (
      init_sysvars sysvar_ids
        (record {
          svm = svm;
          cache = new;
          online = true;
          pinned_slot = 0;
          pinned_blockhash = default_hash;
        })
        r)

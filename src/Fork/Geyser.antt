-- ===== src/Fork/Geyser.antt =====
-- crates/ciel-fork/src/geyser.rs: the subscriber. The messages of the stream, the outcome of a
-- connection and the answers of the RPC manager are arguments; a key is its number, so that equal
-- texts are equal keys, and the clock reads the same throughout one operation.
pub mod Backoff
pub mod Updates
pub mod Chunks
pub mod GapFill
use ciel_sol.Base.{
  ℕ, zero, suc, ◌+◌, ◌*◌, ◌==◌, Bool, true, false, Option, none, some, List, [], ◌∷◌, ◌++◌, map,
  String, ◌⊎◌, inl, inr, ltb, if◌then◌else◌, length, any, is_empty, take, drop,
}
use ciel_sol.Checkers.Json.{Pubkey}
use ciel_sol.Fork.Account.{Account}
use ciel_sol.Fork.Error.{ForkError, geyser}
use ciel_sol.Fork.Cache.{AccountCache, insert, mark_monitored, monitored_keys}
use ciel_sol.Fork.Staleness.{StalenessTracker, record_update}

pub record GeyserConfig : Type 0 where
  pub endpoint : String
  pub api_key : String
  pub backoff_base : ℕ
  pub backoff_max : ℕ
  pub initial_accounts : List Pubkey

-- The account of an update, with its keys as bytes.
pub record AccountInfo : Type 0 where
  pub pubkey : List ℕ
  pub lamports : ℕ
  pub bytes : List ℕ  -- `data`
  pub owner : List ℕ
  pub executable : Bool
  pub rent_epoch : ℕ

pub record AccountUpdate : Type 0 where
  pub slot : ℕ
  pub account : Option AccountInfo

pub data Message : Type 0 where
  account_update : AccountUpdate → Message
  ping : Message
  other : Message
  stream_error : String → Message

pub data SubscribeRequest : Type 0 where
  filters : (account_keys : List Pubkey) (from_slot : Option ℕ) → SubscribeRequest
  pong : SubscribeRequest

-- What the subscriber shares: the cache, the tracker, the lists of keys that wait in the channel,
-- and the requests handed to the stream so far.
pub record Subscriber : Type 0 where
  pub cache : AccountCache Account
  pub staleness : StalenessTracker
  pub waiting : List (List Pubkey)
  pub sent : List SubscribeRequest

abbrev big_endian : ℕ → List ℕ → ℕ
big_endian n [] = n
big_endian n (b ∷ bs) = big_endian (256 * n + b) bs

-- `Pubkey::try_from`
abbrev pub key_of_bytes : List ℕ → Option Pubkey
key_of_bytes bytes = if length bytes == 32 then some (big_endian 0 bytes) else none

abbrev or_default : Option Pubkey → Pubkey
or_default none = 0
or_default (some k) = k

abbrev pub account_of : AccountInfo → Account
account_of info = record {
  lamports = info.lamports;
  bytes = info.bytes;
  owner = or_default (key_of_bytes info.owner);
  executable = info.executable;
  rent_epoch = info.rent_epoch;
}

abbrev stored : ℕ → ℕ → AccountInfo → Option Pubkey → Subscriber → Subscriber
stored now slot info none s = s
stored now slot info (some pubkey) s = record s {
  cache = insert s.cache now pubkey (account_of info) true;
  staleness = record_update s.staleness now slot;
}

abbrev handled : ℕ → ℕ → Option AccountInfo → Subscriber → Subscriber
handled now slot none s = s
handled now slot (some info) s = stored now slot info (key_of_bytes info.pubkey) s

unfoldable pub handle_account_update : ℕ → AccountUpdate → Subscriber → Subscriber
handle_account_update now update s = handled now update.slot update.account s

abbrev pub contains : List Pubkey → Pubkey → Bool
contains keys k = any (λ j. j == k) keys

unfoldable pub push_missing : List Pubkey → List Pubkey → List Pubkey
push_missing keys [] = keys
push_missing keys (k ∷ ks) = push_missing (if contains keys k then keys else keys ++ (k ∷ [])) ks

unfoldable pub build_subscribe_request : GeyserConfig → AccountCache Account → ℕ → SubscribeRequest
unfolding push_missing
build_subscribe_request config cache from_slot =
    filters (push_missing config.initial_accounts (monitored_keys cache))
      (if ltb 0 from_slot then some from_slot else none)

abbrev pub mark_all : AccountCache Account → List Pubkey → AccountCache Account
mark_all cache [] = cache
mark_all cache (k ∷ ks) = mark_all (mark_monitored cache k) ks

abbrev pub mark_lists : AccountCache Account → List (List Pubkey) → AccountCache Account
mark_lists cache [] = cache
mark_lists cache (ks ∷ lists) = mark_lists (mark_all cache ks) lists

-- `locked` says whether `try_lock` fails.
unfoldable pub check_dynamic_accounts : GeyserConfig → Bool → Subscriber → Subscriber
unfolding build_subscribe_request
check_dynamic_accounts config locked s =
    if locked
    then s
    else if is_empty s.waiting
    then s
    else let cache = mark_lists s.cache s.waiting in
      record s {
        cache = cache;
        waiting = [];
        sent = s.sent ++ (build_subscribe_request config cache 0 ∷ []);
      }

-- The loop over the stream: each message comes with its time and with whether the lock is taken.
unfoldable pub stream :
    GeyserConfig → List (ℕ × Bool × Message) → Subscriber → Option ForkError × Subscriber
unfolding check_dynamic_accounts handle_account_update
stream config [] s = (none, s)
stream config ((now, locked, account_update u) ∷ rest) s =
    stream config rest (check_dynamic_accounts config locked (handle_account_update now u s))
stream config ((now, locked, ping) ∷ rest) s =
    stream config rest
      (check_dynamic_accounts config locked (record s { sent = s.sent ++ (pong ∷ []) }))
stream config ((now, locked, other) ∷ rest) s =
    stream config rest (check_dynamic_accounts config locked s)
stream config ((now, locked, stream_error e) ∷ rest) s = (some (geyser e), s)

-- `connect_and_stream`; a connection that fails does so before it sends a request.
unfoldable pub connect_and_stream :
    GeyserConfig
    → Option String
    → ℕ
    → List (ℕ × Bool × Message)
    → Subscriber
    → Option ForkError × Subscriber
unfolding stream build_subscribe_request
connect_and_stream config (some e) from_slot messages s = (some (geyser e), s)
connect_and_stream config none from_slot messages s =
    stream config messages
      (record s { sent = s.sent ++ (build_subscribe_request config s.cache from_slot ∷ []) })

-- The RPC manager and its state.
pub record RpcOps (R : Type 0) : Type 0 where
  pub fetch_multiple_accounts : R → List Pubkey → (ForkError ⊎ List (Option Account)) × R
  pub get_slot : R → (ForkError ⊎ ℕ) × R

-- `chunks(100)`, on fuel that counts the chunks.
unfoldable pub chunks_100 : ℕ → List Pubkey → List (List Pubkey)
chunks_100 zero keys = []
chunks_100 (suc n) keys =
    let rest = chunks_100 n (drop 100 keys) in if is_empty keys then [] else take 100 keys ∷ rest

abbrev pub insert_found :
    ℕ → AccountCache Account → List Pubkey → List (Option Account) → AccountCache Account
insert_found now cache [] accounts = cache
insert_found now cache (k ∷ ks) [] = cache
insert_found now cache (k ∷ ks) (none ∷ accounts) = insert_found now cache ks accounts
insert_found now cache (k ∷ ks) (some a ∷ accounts) =
    insert_found now (insert cache now k a true) ks accounts

module _ {R : Type 0} (rpc : RpcOps R) (now : ℕ) where
  abbrev pub finish_gap : Subscriber → (ForkError ⊎ ℕ) × R → (Option ForkError × Subscriber) × R
  finish_gap s (inl e, r) = ((some e, s), r)
  finish_gap s (inr slot, r) =
      ((none, record s { staleness = record_update s.staleness now slot }), r)

  unfoldable pub fill_chunks :
      List (List Pubkey) → Subscriber → R → (Option ForkError × Subscriber) × R
  fill_chunks [] s r = finish_gap s (rpc.get_slot r)
  fill_chunks (chunk ∷ chunks) s r = elim (rpc.fetch_multiple_accounts r chunk).0 [
    | inl e ↦ ((some e, s), (rpc.fetch_multiple_accounts r chunk).1)
    | inr accounts ↦
        fill_chunks chunks (record s { cache = insert_found now s.cache chunk accounts })
          (rpc.fetch_multiple_accounts r chunk).1
  ]

  unfoldable pub rpc_gap_fill : Subscriber → R → (Option ForkError × Subscriber) × R
  unfolding fill_chunks chunks_100
  rpc_gap_fill s r =
      let monitored = monitored_keys s.cache in
      if is_empty monitored
      then ((none, s), r)
      else fill_chunks (chunks_100 (length monitored) monitored) s r

-- ===== src/Fork/Rpc.antt =====
-- crates/ciel-fork/src/rpc.rs: the failover of `RpcManager`. What the two providers answer, and
-- what other requests do to the breaker while a request waits for its primary, are part of a
-- request.
pub mod Outage
use ciel_sol.Base.{
  ℕ, Bool, true, false, Option, none, some, List, String, ◌⊎◌, inl, inr, if◌then◌else◌,
}
use ciel_sol.Checkers.Json.{Pubkey}
use ciel_sol.Fork.Account.{Account}
use ciel_sol.Fork.Error.{ForkError, rpc, account_not_found, all_providers_down}
use ciel_sol.Fork.Breaker.{CircuitBreaker, is_available, record_success, record_failure}

-- What `timeout` of a call of the primary gives.
pub data Reply (A : Type 0) : Type 0 where
  answered : A → Reply A
  refused : String → Reply A
  timed_out : Reply A

pub record Request (A : Type 0) : Type 0 where
  pub asked_at : ℕ
  pub meanwhile : CircuitBreaker → CircuitBreaker
  pub primary : Reply A
  pub replied_at : ℕ
  pub fallback : String ⊎ A

abbrev pub value_of : Pubkey → Option Account → ForkError ⊎ Account
value_of pubkey none = inl (account_not_found pubkey)
value_of pubkey (some account) = inr account

abbrev pub fallback_account : Pubkey → String ⊎ Option Account → ForkError ⊎ Account
fallback_account pubkey (inl e) = inl all_providers_down
fallback_account pubkey (inr value) = value_of pubkey value

abbrev pub replied_account :
    Pubkey
    → Request (Option Account)
    → CircuitBreaker
    → Reply (Option Account)
    → (ForkError ⊎ Account) × CircuitBreaker
replied_account pubkey q cb (answered value) = (value_of pubkey value, record_success cb)
replied_account pubkey q cb (refused e) =
    (fallback_account pubkey q.fallback, record_failure q.replied_at cb)
replied_account pubkey q cb timed_out =
    (fallback_account pubkey q.fallback, record_failure q.replied_at cb)

unfoldable pub fetch_account :
    Pubkey → Request (Option Account) → CircuitBreaker → (ForkError ⊎ Account) × CircuitBreaker
fetch_account pubkey q cb =
    let (try_primary, cb') = is_available q.asked_at cb in
    if try_primary
    then replied_account pubkey q (q.meanwhile cb') q.primary
    else (fallback_account pubkey q.fallback, cb')

abbrev fallback_accounts : String ⊎ List (Option Account) → ForkError ⊎ List (Option Account)
fallback_accounts (inl e) = inl all_providers_down
fallback_accounts (inr values) = inr values

abbrev replied_accounts :
    Request (List (Option Account))
    → CircuitBreaker
    → Reply (List (Option Account))
    → (ForkError ⊎ List (Option Account)) × CircuitBreaker
replied_accounts q cb (answered values) = (inr values, record_success cb)
replied_accounts q cb (refused e) = (fallback_accounts q.fallback, record_failure q.replied_at cb)
replied_accounts q cb timed_out = (fallback_accounts q.fallback, record_failure q.replied_at cb)

unfoldable pub fetch_multiple_accounts :
    Request (List (Option Account))
    → CircuitBreaker
    → (ForkError ⊎ List (Option Account)) × CircuitBreaker
fetch_multiple_accounts q cb =
    let (try_primary, cb') = is_available q.asked_at cb in
    if try_primary
    then replied_accounts q (q.meanwhile cb') q.primary
    else (fallback_accounts q.fallback, cb')

-- `map_err(|e| ForkError::Rpc(e.to_string()))`, of the slot and of the blockhash
abbrev fallback_rpc : {A : Type 0} → String ⊎ A → ForkError ⊎ A
fallback_rpc (inl e) = inl (rpc e)
fallback_rpc (inr a) = inr a

abbrev replied_rpc :
    {A : Type 0} → Request A → CircuitBreaker → Reply A → (ForkError ⊎ A) × CircuitBreaker
replied_rpc q cb (answered a) = (inr a, record_success cb)
replied_rpc q cb (refused e) = (fallback_rpc q.fallback, record_failure q.replied_at cb)
replied_rpc q cb timed_out = (fallback_rpc q.fallback, record_failure q.replied_at cb)

unfoldable pub get_slot : Request ℕ → CircuitBreaker → (ForkError ⊎ ℕ) × CircuitBreaker
get_slot q cb =
    let (try_primary, cb') = is_available q.asked_at cb in
    if try_primary
    then replied_rpc q (q.meanwhile cb') q.primary
    else (fallback_rpc q.fallback, cb')

-- A blockhash with the last height at which it is valid, of which the first is kept.
abbrev first_of : Reply (List ℕ × ℕ) → Reply (List ℕ)
first_of (answered (hash, height)) = answered hash
first_of (refused e) = refused e
first_of timed_out = timed_out

abbrev first_or : String ⊎ (List ℕ × ℕ) → String ⊎ List ℕ
first_or (inl e) = inl e
first_or (inr (hash, height)) = inr hash

unfoldable pub get_latest_blockhash :
    Request (List ℕ × ℕ) → CircuitBreaker → (ForkError ⊎ List ℕ) × CircuitBreaker
get_latest_blockhash q cb =
    let (try_primary, cb') = is_available q.asked_at cb in
    let r : Request (List ℕ) = record {
      asked_at = q.asked_at;
      meanwhile = q.meanwhile;
      primary = first_of q.primary;
      replied_at = q.replied_at;
      fallback = first_or q.fallback;
    } in
    if try_primary
    then replied_rpc r (q.meanwhile cb') r.primary
    else (fallback_rpc r.fallback, cb')

-- ===== src/Fork/Executor/Changes.antt =====
-- executor.rs: the snapshot before the run, the lamport deltas and the changed accounts.
use ciel_sol.Base.{
  ℕ, ◌+◌, ◌*◌, Bool, false, Option, none, some, List, [], ◌∷◌, ◌==◌, ltb, if◌then◌else◌, length,
  ◌||◌, not,
}
use ciel_sol.Base.Int.{ℤ, pos, negsuc, sub_ℕ, ◌-ℤ◌}
use ciel_sol.Base.Assoc.{Assoc, find, put}
use ciel_sol.Checkers.Json.{Pubkey}
use ciel_sol.Checkers.Types.{AccountChange}
use ciel_sol.Fork.Account.{Account}

pub record AccountSnapshot : Type 0 where
  pub lamports : ℕ
  pub owner : Pubkey
  pub data_len : ℕ

abbrev pub snapshot_of : Account → AccountSnapshot
snapshot_of a = record { lamports = a.lamports; owner = a.owner; data_len = length a.bytes }

abbrev pub put_snapshot : Assoc AccountSnapshot → Pubkey → Option Account → Assoc AccountSnapshot
put_snapshot m k none = m
put_snapshot m k (some a) = put m k (snapshot_of a)

unfoldable pub snapshot_from :
    (Pubkey → Option Account) → Assoc AccountSnapshot → List Pubkey → Assoc AccountSnapshot
snapshot_from get m [] = m
snapshot_from get m (k ∷ ks) = snapshot_from get (put_snapshot m k (get k)) ks

unfoldable pub snapshot_accounts : (Pubkey → Option Account) → List Pubkey → Assoc AccountSnapshot
unfolding snapshot_from
snapshot_accounts get keys = snapshot_from get [] keys

abbrev pub i64_half : ℕ
i64_half = 9223372036854775808

-- An i64 after an operation that wraps.
unfoldable pub wrap_i64 : ℤ → ℤ
wrap_i64 (pos n) = if ltb n i64_half then pos n else sub_ℕ n (2 * i64_half)
wrap_i64 (negsuc n) = if ltb n i64_half then negsuc n else sub_ℕ (2 * i64_half) (n + 1)

-- `a as i64 - b as i64`
unfoldable pub lamport_delta : ℕ → ℕ → ℤ
unfolding wrap_i64
lamport_delta a b = wrap_i64 (wrap_i64 (pos a) -ℤ wrap_i64 (pos b))

abbrev pub pre_lamports : Option AccountSnapshot → ℕ
pre_lamports none = 0
pre_lamports (some s) = s.lamports

abbrev pub is_zero : ℤ → Bool
is_zero (pos n) = n == 0
is_zero (negsuc n) = false

unfoldable pub deltas_from : Assoc AccountSnapshot → Assoc ℤ → List (Pubkey × Account) → Assoc ℤ
deltas_from pre m [] = m
deltas_from pre m ((k, a) ∷ post) =
    let delta = lamport_delta a.lamports (pre_lamports (find pre k)) in
    deltas_from pre (if is_zero delta then m else put m k delta) post

unfoldable pub compute_balance_deltas : Assoc AccountSnapshot → List (Pubkey × Account) → Assoc ℤ
unfolding deltas_from
compute_balance_deltas pre post = deltas_from pre [] post

-- `Pubkey::default()` and zeros where there was no account.
abbrev pub before_of : Option AccountSnapshot → AccountSnapshot
before_of none = record { lamports = 0; owner = 0; data_len = 0 }
before_of (some s) = s

unfoldable pub has_changed : AccountSnapshot → Account → Bool
has_changed s a =
    not (s.owner == a.owner)
    || (not (s.lamports == a.lamports) || not (s.data_len == length a.bytes))

abbrev pub change_of : Pubkey → AccountSnapshot → Account → AccountChange
change_of k s a = record {
  pubkey = k;
  owner_before = s.owner;
  owner_after = a.owner;
  lamports_before = s.lamports;
  lamports_after = a.lamports;
  data_len_before = s.data_len;
  data_len_after = length a.bytes;
}

unfoldable pub compute_account_changes :
    Assoc AccountSnapshot → List (Pubkey × Account) → List AccountChange
unfolding has_changed
compute_account_changes pre [] = []
compute_account_changes pre ((k, a) ∷ post) =
    let rest = compute_account_changes pre post in
    let s = before_of (find pre k) in if has_changed s a then change_of k s a ∷ rest else rest

-- ===== src/Fork/Executor/Oracles.antt =====
-- executor.rs: the oracle reads, from the instructions and from the logs.
use text.Mathlib.Text.{starts_with}
use ciel_sol.Base.{
  ℕ, Bool, false, Option, none, some, List, [], ◌∷◌, ◌++◌, ◌==◌, if◌then◌else◌, get_elem?, any,
  ◌&&◌, ◌||◌, not, String, str_eq,
}
use ciel_sol.Checkers.Json.{Pubkey}
use ciel_sol.Checkers.Types.{OracleRead, CompiledInstruction, Transaction}

abbrev pub switchboard_v2_program_id : Pubkey
switchboard_v2_program_id = 0x068851c68c6832f02fa581b1bf491b77ca41776ba2b988b5a6faba8ee3a2ec90

abbrev pub pyth_program_id : Pubkey
pyth_program_id = 0xdce5ebe1e49c3b9f114cb5544c50a99ec0d692d63f56795ae029ac83d9ea8be2

-- `log.contains(id)`
unfoldable pub contains : String → String → Bool
contains String.[] pattern = starts_with String.[] pattern
contains (String.◌∷◌ c s) pattern =
    let rest = contains s pattern in starts_with (String.◌∷◌ c s) pattern || rest

-- The reads so far, in the order pushed, and the keys seen.
pub record Found : Type 0 where
  pub reads : List OracleRead
  pub seen : List Pubkey

abbrev pub is_seen : List Pubkey → Pubkey → Bool
is_seen [] k = false
is_seen (j ∷ js) k = j == k || is_seen js k

abbrev pub is_oracle_program : Pubkey → Bool
is_oracle_program k = k == switchboard_v2_program_id || k == pyth_program_id

-- A key that is no oracle program and is not seen yet is pushed.
unfoldable pub push_read : String → Found → Pubkey → Found
push_read oracle_type f k = if is_oracle_program k || is_seen f.seen k then f else record {
  reads = f.reads ++ record { oracle_pubkey = k; oracle_type = oracle_type } ∷ [];
  seen = k ∷ f.seen;
}

abbrev pub push_index : String → List Pubkey → Found → Option Pubkey → Found
push_index oracle_type keys f none = f
push_index oracle_type keys f (some k) = push_read oracle_type f k

unfoldable pub push_indices : String → List Pubkey → Found → List ℕ → Found
push_indices oracle_type keys f [] = f
push_indices oracle_type keys f (i ∷ is) =
    push_indices oracle_type keys (push_index oracle_type keys f (get_elem? keys i)) is

-- The type of a program's feeds.
abbrev pub oracle_type_of : Pubkey → Option String
oracle_type_of k =
    if k == switchboard_v2_program_id
    then some "switchboard"
    else if k == pyth_program_id
    then some "pyth"
    else none

abbrev pub push_instruction : List Pubkey → Found → CompiledInstruction → Option String → Found
push_instruction keys f ix none = f
push_instruction keys f ix (some oracle_type) = push_indices oracle_type keys f ix.accounts

abbrev pub type_at : Option Pubkey → Option String
type_at none = none
type_at (some k) = oracle_type_of k

-- Layer 1
unfoldable pub direct_reads : List Pubkey → Found → List CompiledInstruction → Found
unfolding push_indices
direct_reads keys f [] = f
direct_reads keys f (ix ∷ ixs) =
    direct_reads keys (push_instruction keys f ix (type_at (get_elem? keys ix.program_id_index)))
      ixs

unfoldable pub push_keys : String → Found → List Pubkey → Found
push_keys oracle_type f [] = f
push_keys oracle_type f (k ∷ ks) = push_keys oracle_type (push_read oracle_type f k) ks

abbrev pub has_type : String → List OracleRead → Bool
has_type oracle_type reads = any (λ r. str_eq r.oracle_type oracle_type) reads

-- Layer 2: a log names the program, and no read is of its type.
unfoldable pub logged_reads : String → String → List String → List Pubkey → Found → Found
unfolding push_keys contains
logged_reads program oracle_type logs keys f =
    if any (λ log. contains log program) logs && not (has_type oracle_type f.reads)
    then push_keys oracle_type f keys
    else f

unfoldable pub found_reads : Transaction → List String → Found
unfolding direct_reads logged_reads
found_reads tx logs =
    let direct = direct_reads tx.account_keys (record { reads = []; seen = [] }) tx.instructions in
    let switchboard =
      logged_reads "SW1TCH7qEPTdLsDHRgPuMQjbQxKdH2aBStViMFnt64f" "switchboard" logs tx.account_keys
        direct in
    logged_reads "FsJ3A3u2vn5cTVofAjvy6y5kwABJAqYWpe4975bi2epH" "pyth" logs tx.account_keys
      switchboard

unfoldable pub detect_oracle_reads : Transaction → List String → List OracleRead
unfolding found_reads
detect_oracle_reads tx logs = (found_reads tx logs).reads

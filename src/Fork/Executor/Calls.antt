-- ===== src/Fork/Executor/Calls.antt =====
-- executor.rs: the call graph and the token approvals.
use ciel_sol.Base.{
  ℕ, suc, ◌+◌, ◌*◌, Bool, false, Option, none, some, List, [], ◌∷◌, ◌++◌, map, ◌==◌, if◌then◌else◌,
  length, get_elem?, drop, ◌&&◌,
}
use ciel_sol.Checkers.Json.{Pubkey}
use ciel_sol.Checkers.Types.{CpiCall, CompiledInstruction, Transaction, TokenApproval}
use ciel_sol.Checkers.Registry.{spl_token_program_id}

pub record InnerInstruction : Type 0 where
  pub instruction : CompiledInstruction
  pub stack_height : ℕ

-- `.copied().unwrap_or_default()`
abbrev pub or_default : Option Pubkey → Pubkey
or_default none = 0
or_default (some k) = k

abbrev pub key_at : List Pubkey → ℕ → Pubkey
key_at keys i = or_default (get_elem? keys i)

abbrev pub call_of : List Pubkey → ℕ → ℕ → CompiledInstruction → CpiCall
call_of keys ix_index height ix = record {
  program_id = key_at keys ix.program_id_index;
  instruction_index = ix_index;
  stack_height = height;
  accounts = map (key_at keys) ix.accounts;
  bytes = ix.bytes;
}

-- Layer 1: the instructions of the transaction, from an index on.
unfoldable pub top_level : List Pubkey → ℕ → List CompiledInstruction → List CpiCall
top_level keys i [] = []
top_level keys i (ix ∷ ixs) = call_of keys i 1 ix ∷ top_level keys (suc i) ixs

-- Layer 2: the calls made inside, by the index of the instruction.
unfoldable pub inner_of : List Pubkey → ℕ → List InnerInstruction → List CpiCall
inner_of keys i [] = []
inner_of keys i (inner ∷ rest) =
    call_of keys i inner.stack_height inner.instruction ∷ inner_of keys i rest

unfoldable pub inner_calls : List Pubkey → ℕ → List (List InnerInstruction) → List CpiCall
unfolding inner_of
inner_calls keys i [] = []
inner_calls keys i (inner ∷ rest) = inner_of keys i inner ++ inner_calls keys (suc i) rest

unfoldable pub extract_cpi_graph :
    Transaction → List (List InnerInstruction) → List Pubkey → List CpiCall
unfolding top_level inner_calls
extract_cpi_graph tx inner keys = top_level keys 0 tx.instructions ++ inner_calls keys 0 inner

-- `u64::from_le_bytes`, on any number of bytes
abbrev pub from_le_bytes : List ℕ → ℕ
from_le_bytes [] = 0
from_le_bytes (b ∷ bs) = b + 256 * from_le_bytes bs

abbrev pub is_approve : CompiledInstruction → Bool
is_approve ix = length ix.bytes == 9 && starts_with_4 ix.bytes
  where
    starts_with_4 : List ℕ → Bool
    starts_with_4 [] = false
    starts_with_4 (b ∷ bs) = b == 4

abbrev pub approval_accounts : List Pubkey → ℕ → List ℕ → List TokenApproval
approval_accounts keys amount (s ∷ d ∷ o ∷ rest) =
    record {
      source = key_at keys s;
      delegate = key_at keys d;
      amount = amount;
      owner = key_at keys o;
    }
    ∷ []
approval_accounts keys amount _ = []

-- What one instruction adds.
abbrev pub approval_of : List Pubkey → CompiledInstruction → Option Pubkey → List TokenApproval
approval_of keys ix none = []
approval_of keys ix (some program_id) =
    if program_id == spl_token_program_id && is_approve ix
    then approval_accounts keys (from_le_bytes (drop 1 ix.bytes)) ix.accounts
    else []

unfoldable pub approvals_in : List Pubkey → List CompiledInstruction → List TokenApproval
approvals_in keys [] = []
approvals_in keys (ix ∷ ixs) =
    approval_of keys ix (get_elem? keys ix.program_id_index) ++ approvals_in keys ixs

unfoldable pub detect_token_approvals : Transaction → List TokenApproval
unfolding approvals_in
detect_token_approvals tx = approvals_in tx.account_keys tx.instructions

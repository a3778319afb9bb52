-- ===== src/Checkers/Types.antt =====
-- crates/ciel-checkers/src/traits.rs and crates/ciel-fork/src/trace.rs: what a checker reads and
-- what it returns.
use ciel_sol.Base.{ℕ, Bool, Option, List, String}
use ciel_sol.Base.Int.{ℤ}
use ciel_sol.Checkers.Json.{Pubkey, Text, Piece, Fields}

pub data Severity : Type 0 where
  none low medium high critical : Severity

-- The discriminant, by which the derived order compares.
abbrev pub severity_u8 : Severity → ℕ
severity_u8 Severity.none = 0
severity_u8 low = 1
severity_u8 medium = 2
severity_u8 high = 3
severity_u8 critical = 4

pub record Flag : Type 0 where
  pub code : String
  pub message : List Piece
  pub fields : Fields  -- `data`

pub record CheckerOutput : Type 0 where
  pub checker_name : String
  pub passed : Bool
  pub severity : Severity
  pub flags : List Flag
  pub details : List Piece

pub data IntentSpec : Type 0 where
  swap : (amount_in : ℕ) (mint_in mint_out : Pubkey) (min_amount_out : Option ℕ) → IntentSpec
  transfer : (amount : ℕ) (mint recipient : Pubkey) → IntentSpec
  deposit : (amount : ℕ) (mint protocol : Pubkey) → IntentSpec

pub record Intent : Type 0 where
  pub description : Text
  pub constraints : List Text
  pub spec : Option IntentSpec

pub record CpiCall : Type 0 where
  pub program_id : Pubkey
  pub instruction_index : ℕ
  pub stack_height : ℕ
  pub accounts : List Pubkey
  pub bytes : List ℕ  -- `data`

pub record AccountChange : Type 0 where
  pub pubkey : Pubkey
  pub owner_before : Pubkey
  pub owner_after : Pubkey
  pub lamports_before : ℕ
  pub lamports_after : ℕ
  pub data_len_before : ℕ
  pub data_len_after : ℕ

pub record OracleRead : Type 0 where
  pub oracle_pubkey : Pubkey
  pub oracle_type : String

pub record TokenBalanceDelta : Type 0 where
  pub owner : Pubkey
  pub mint : Pubkey
  pub delta : ℤ

pub record TokenApproval : Type 0 where
  pub source : Pubkey
  pub delegate : Pubkey
  pub amount : ℕ
  pub owner : Pubkey

-- `balance_deltas` lists the entries of the hash map in the order of its iteration.
pub record SimulationTrace : Type 0 where
  pub success : Bool
  pub error : Option String
  pub balance_deltas : List (Pubkey × ℤ)
  pub cpi_graph : List CpiCall
  pub account_changes : List AccountChange
  pub logs : List String
  pub oracle_reads : List OracleRead
  pub token_approvals : List TokenApproval
  pub token_balance_deltas : List TokenBalanceDelta
  pub compute_units_consumed : ℕ
  pub fee : ℕ

-- The parts of a Solana transaction that the program reads.
pub record CompiledInstruction : Type 0 where
  pub program_id_index : ℕ
  pub accounts : List ℕ
  pub bytes : List ℕ  -- `data`

pub record Transaction : Type 0 where
  pub signatures : List (List ℕ)
  pub account_keys : List Pubkey
  pub instructions : List CompiledInstruction

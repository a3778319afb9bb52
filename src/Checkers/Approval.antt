-- ===== src/Checkers/Approval.antt =====
-- crates/ciel-checkers/src/approval_abuse.rs.
pub mod Laws
pub mod Amount
use ciel_sol.Base.{
  ℕ, suc, ◌+◌, ◌*◌, Bool, true, false, Option, none, some, List, [], ◌∷◌, ◌++◌, String, ◌==◌, ltb,
  leb, if◌then◌else◌, length, first, get_elem?, take, drop, any, is_empty, is_some, ◌&&◌, ◌||◌,
  ◌>>=◌, not,
}
use ciel_sol.Checkers.Json.{
  Pubkey, Piece, lit, num, key, Json, bool, number, text, str, key_text, opt_key, Fields,
}
use ciel_sol.Checkers.Types.{Severity, high, Flag, CheckerOutput, CpiCall}
use ciel_sol.Checkers.Registry.{
  ProgramRegistry, is_known_protocol, spl_token_program_id, spl_token_2022_program_id,
}
use ciel_sol.Checkers.Results.{CheckerContext}

abbrev pub flag_unlimited_approval_unknown_program : String
flag_unlimited_approval_unknown_program = "UNLIMITED_APPROVAL_UNKNOWN_PROGRAM"

abbrev pub disc_approve : ℕ
disc_approve = 4

abbrev pub disc_revoke : ℕ
disc_revoke = 5

abbrev pub disc_approve_checked : ℕ
disc_approve_checked = 13

abbrev pub u64_max : ℕ
u64_max = 18446744073709551615

pub record ApproveCandidate : Type 0 where
  pub disc : ℕ
  pub source : Pubkey
  pub delegate : Pubkey
  pub owner : Option Pubkey
  pub mint : Option Pubkey
  pub spl_program_name : String

-- `u64::from_le_bytes`, on any number of bytes
abbrev pub from_le_bytes : List ℕ → ℕ
from_le_bytes [] = 0
from_le_bytes (b ∷ bs) = b + 256 * from_le_bytes bs

-- `data.get(1..9)` is there from nine bytes on.
unfoldable pub parse_amount_u64_le : List ℕ → Option ℕ
parse_amount_u64_le bytes =
    if leb 9 (length bytes) then some (from_le_bytes (take 8 (drop 1 bytes))) else none

abbrev pub program_name : Pubkey → Option String
program_name p =
    if p == spl_token_program_id
    then some "SPL Token"
    else if p == spl_token_2022_program_id
    then some "SPL Token-2022"
    else none

-- The arm for one discriminator: the amount, and the accounts at their places.
unfoldable pub approve_fields : String → ℕ → CpiCall → Option (ℕ × ApproveCandidate)
approve_fields name disc call =
    if disc == disc_approve
    then (do
      amount ← parse_amount_u64_le call.bytes
      source ← first call.accounts
      delegate ← get_elem? call.accounts 1
      some (
        amount,
        record {
          disc = disc;
          source = source;
          delegate = delegate;
          owner = get_elem? call.accounts 2;
          mint = none;
          spl_program_name = name;
        },
      ))
    else if disc == disc_approve_checked
    then (do
      amount ← parse_amount_u64_le call.bytes
      source ← first call.accounts
      delegate ← get_elem? call.accounts 2
      some (
        amount,
        record {
          disc = disc;
          source = source;
          delegate = delegate;
          owner = get_elem? call.accounts 3;
          mint = get_elem? call.accounts 1;
          spl_program_name = name;
        },
      ))
    else none

-- The two early returns behind the match.
unfoldable pub unlimited_unknown : ProgramRegistry → ℕ × ApproveCandidate → Option ApproveCandidate
unlimited_unknown registry (amount, c) =
    if not (amount == u64_max)
    then none
    else if is_some (is_known_protocol registry c.delegate)
    then none
    else some c

unfoldable pub inspect_approve : CpiCall → ProgramRegistry → Option ApproveCandidate
inspect_approve call registry = do
  name ← program_name call.program_id
  disc ← first call.bytes
  found ← approve_fields name disc call
  unlimited_unknown registry found

-- `o == Some(&k)`
abbrev pub holds_key : Option ℕ → ℕ → Bool
holds_key none k = false
holds_key (some j) k = j == k

unfoldable pub is_revoke_of : Pubkey → CpiCall → Bool
is_revoke_of source call =
    (call.program_id == spl_token_program_id || call.program_id == spl_token_2022_program_id)
    && (holds_key (first call.bytes) disc_revoke && holds_key (first call.accounts) source)

-- `graph.iter().skip(approve_idx + 1).any(…)`
unfoldable pub revoked_after : List CpiCall → ℕ → Pubkey → Bool
revoked_after graph approve_idx source = any (is_revoke_of source) (drop (suc approve_idx) graph)

unfoldable pub build_flag : CpiCall → ApproveCandidate → Flag
build_flag call c = record {
  code = flag_unlimited_approval_unknown_program;
  message =
      lit "Unlimited token approval granted to unrecognized program "
      ∷ key c.delegate
      ∷ lit " at instruction "
      ∷ num call.instruction_index
      ∷ lit ", stack_height "
      ∷ num call.stack_height
      ∷ [];
  fields =
      ("token_mint", opt_key c.mint)
      ∷ ("delegate", key_text c.delegate)
      ∷ ("amount", text (num u64_max ∷ []))
      ∷ ("in_known_registry", bool false)
      ∷ ("source_token_account", key_text c.source)
      ∷ ("owner", opt_key c.owner)
      ∷ ("instruction_index", number call.instruction_index)
      ∷ ("stack_height", number call.stack_height)
      ∷ ("via_cpi", bool (leb 2 call.stack_height))
      ∷ ("spl_program_name", str c.spl_program_name)
      ∷ ("discriminator", number c.disc)
      ∷ [];
}

-- The body of the loop on one call: the flags that it pushes.
unfoldable pub flag_call : ProgramRegistry → List CpiCall → ℕ → CpiCall → List Flag
flag_call registry graph idx call = elim (inspect_approve call registry) [
  | none ↦ []
  | some c ↦ if revoked_after graph idx c.source then [] else build_flag call c ∷ []
]

-- `for (idx, call) in graph.iter().enumerate()`, from a call on; the flags in the order pushed.
unfoldable pub flag_from : ProgramRegistry → List CpiCall → ℕ → List CpiCall → List Flag
flag_from registry graph idx [] = []
flag_from registry graph idx (call ∷ rest) =
    flag_call registry graph idx call ++ flag_from registry graph (suc idx) rest

unfoldable pub check : CheckerContext → CheckerOutput
check ctx =
    let flags = flag_from ctx.known_programs ctx.trace.cpi_graph 0 ctx.trace.cpi_graph in
    let passed = is_empty flags in
    record {
      checker_name = "approval_abuse";
      passed = passed;
      severity = if passed then Severity.none else high;
      flags = flags;
      details =
          if passed
          then lit "No abusive token approvals detected" ∷ []
          else num (length flags)
            ∷ lit " unlimited approval(s) to unknown program(s) detected"
            ∷ [];
    }

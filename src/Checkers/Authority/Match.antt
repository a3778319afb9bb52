-- ===== src/Checkers/Authority/Match.antt =====
-- The match of one call in authority_diff.rs.
use ciel_sol.Base.{
  ℕ, Bool, false, Option, none, some, List, [], ◌∷◌, ◌++◌, String, ◌==◌, str_eq, if◌then◌else◌,
  first, get_elem?, is_some, ◌&&◌, ◌||◌, ◌>>=◌, not,
}
use ciel_sol.Checkers.Json.{
  Pubkey, Piece, lit, num, Json, null, bool, number, text, str, key_text, opt_key, opt_number,
  Fields,
}
use ciel_sol.Checkers.Types.{Severity, low, medium, high, critical, Flag, CpiCall, Transaction}
use ciel_sol.Checkers.Registry.{
  ProgramRegistry, is_known_protocol, spl_token_program_id, spl_token_2022_program_id,
  bpf_loader_upgradeable_program_id, squads_v4_program_id,
}
use ciel_sol.Checkers.Authority.Keywords.{
  flag_spl_set_authority_in_cpi, flag_spl_close_account_in_cpi, flag_spl_init_account_in_cpi,
  flag_bpf_upgrade_in_cpi, flag_bpf_set_authority_in_cpi, flag_bpf_close_in_cpi,
  flag_multisig_admin_handoff_candidate,
}

abbrev pub authority_names : List String
authority_names =
    "MintTokens" ∷ "FreezeAccount" ∷ "AccountOwner" ∷ "CloseAccount" ∷ "TransferFeeConfig"
    ∷ "WithheldWithdraw" ∷ "CloseMint" ∷ "InterestRate" ∷ "PermanentDelegate"
    ∷ "ConfidentialTransferMint" ∷ "TransferHookProgramId" ∷ "ConfidentialTransferFeeConfig"
    ∷ "MetadataPointer" ∷ "GroupPointer" ∷ "GroupMemberPointer" ∷ "ScaledUiAmount" ∷ "Pause"
    ∷ "PermissionedBurn" ∷ []

-- `authority_type_name`, with the numbers of the match as places in the list
unfoldable pub authority_type_name : ℕ → List Piece
authority_type_name n = elim (get_elem? authority_names n) [
  | some name ↦ lit name ∷ []
  | none ↦ lit "Unknown(" ∷ num n ∷ lit ")" ∷ []
]

abbrev pub opt_authority_name : Option ℕ → Json
unfolding authority_type_name
opt_authority_name none = null
opt_authority_name (some n) = text (authority_type_name n)

-- The message and the four fields that most arms share.
abbrev pub at_call : List Piece → CpiCall → List Piece
at_call what call =
    what
    ++ lit " at instruction "
      ∷ num call.instruction_index
      ∷ lit ", stack_height "
      ∷ num call.stack_height
      ∷ []

abbrev pub call_fields : CpiCall → Option Pubkey → Fields → Fields
call_fields call target more =
    ("instruction_index", number call.instruction_index)
    ∷ ("stack_height", number call.stack_height)
    ∷ ("program_id", key_text call.program_id)
    ∷ ("target_account", opt_key target)
    ∷ more

abbrev pub flag_at : String → List Piece → CpiCall → Option Pubkey → Fields → Flag
flag_at code what call target more = record {
  code = code;
  message = at_call what call;
  fields = call_fields call target more;
}

abbrev pub spl_arm : CpiCall → ℕ → Option Flag
spl_arm call disc =
    if disc == 6
    then some (
        flag_at flag_spl_set_authority_in_cpi (lit "SPL Token SetAuthority" ∷ []) call
          (first call.accounts)
          (("authority_type", opt_number (get_elem? call.bytes 1))
            ∷ ("authority_type_name", opt_authority_name (get_elem? call.bytes 1))
            ∷ []))
    else if disc == 9
    then some (
        flag_at flag_spl_close_account_in_cpi (lit "SPL Token CloseAccount" ∷ []) call
          (first call.accounts) [])
    else if disc == 1 || (disc == 16 || disc == 18)
    then some (
        flag_at flag_spl_init_account_in_cpi
          (lit "SPL Token InitializeAccount (disc " ∷ num disc ∷ lit ")" ∷ []) call
          (first call.accounts) [])
    else none

unfoldable pub match_spl_token : CpiCall → Option Flag
match_spl_token call = first call.bytes >>= spl_arm call

abbrev pub bpf_arm : CpiCall → ℕ → Option Flag
bpf_arm call disc =
    if disc == 3
    then some (
        flag_at flag_bpf_upgrade_in_cpi (lit "BPF Loader Upgrade" ∷ []) call
          (get_elem? call.accounts 1) [])
    else if disc == 4 || disc == 7
    then some (
        flag_at flag_bpf_set_authority_in_cpi
          (lit "BPF Loader SetAuthority" ∷ lit (if disc == 7 then "Checked" else "") ∷ []) call
          (first call.accounts) (("checked", bool (disc == 7)) ∷ []))
    else if disc == 5
    then some
        (flag_at flag_bpf_close_in_cpi (lit "BPF Loader Close" ∷ []) call (first call.accounts) [])
    else none

unfoldable pub match_bpf_loader : CpiCall → Option Flag
match_bpf_loader call = first call.bytes >>= bpf_arm call

-- The first account that is a registered program other than Squads.
unfoldable pub find_target : ProgramRegistry → List Pubkey → Option Pubkey
find_target registry [] = none
find_target registry (pk ∷ pks) =
    if not (pk == squads_v4_program_id) && is_some (is_known_protocol registry pk)
    then some pk
    else find_target registry pks

unfoldable pub match_squads_proxy : CpiCall → ProgramRegistry → Option Flag
unfolding find_target
match_squads_proxy call registry = do
  target ← find_target registry call.accounts
  protocol_name ← is_known_protocol registry target
  some (record {
    code = flag_multisig_admin_handoff_candidate;
    message =
        lit "Squads multisig CPI carries known protocol "
        ∷ lit protocol_name
        ∷ lit " in accounts at instruction "
        ∷ num call.instruction_index
        ∷ [];
    fields =
        ("instruction_index", number call.instruction_index)
        ∷ ("stack_height", number call.stack_height)
        ∷ ("program_id", key_text call.program_id)
        ∷ ("target_account", key_text target)
        ∷ ("target_protocol_name", str protocol_name)
        ∷ [];
  })

unfoldable pub match_call : CpiCall → ProgramRegistry → Option Flag
match_call call registry =
    if call.program_id == spl_token_program_id || call.program_id == spl_token_2022_program_id
    then match_spl_token call
    else if call.program_id == bpf_loader_upgradeable_program_id
    then match_bpf_loader call
    else if call.program_id == squads_v4_program_id
    then match_squads_proxy call registry
    else none

unfoldable pub flag_severity : String → Severity
flag_severity code =
    if str_eq code flag_spl_set_authority_in_cpi
    then high
    else if str_eq code flag_spl_close_account_in_cpi
    then medium
    else if str_eq code flag_spl_init_account_in_cpi
    then low
    else if str_eq code flag_bpf_upgrade_in_cpi
    then critical
    else if str_eq code flag_bpf_set_authority_in_cpi
    then high
    else if str_eq code flag_bpf_close_in_cpi
    then high
    else if str_eq code flag_multisig_admin_handoff_candidate
    then medium
    else low

-- `accounts.iter().find_map(…)`
unfoldable pub find_name : ProgramRegistry → List Pubkey → Option String
find_name registry [] = none
find_name registry (pk ∷ pks) = elim (is_known_protocol registry pk) [
  | some name ↦ some name
  | none ↦ find_name registry pks
]

unfoldable pub lookup_known_protocol_in_call : CpiCall → ProgramRegistry → Option String
unfolding find_name
lookup_known_protocol_in_call call registry = find_name registry call.accounts

-- `solana_sdk::system_program::ID` is 32 zero bytes.
abbrev pub system_program_id : Pubkey
system_program_id = 0

abbrev pub is_disc : Option ℕ → ℕ → Bool
is_disc none k = false
is_disc (some j) k = j == k

unfoldable pub has_durable_nonce_precursor : Transaction → Bool
has_durable_nonce_precursor tx = elim (first tx.instructions) [
  | none ↦ false
  | some ix ↦ elim (get_elem? tx.account_keys ix.program_id_index) [
    | none ↦ false
    | some program_id ↦ program_id == system_program_id && is_disc (first ix.bytes) 4
  ]
]

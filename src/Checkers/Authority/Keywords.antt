-- ===== src/Checkers/Authority/Keywords.antt =====
-- The intent heuristic of authority_diff.rs. `char::is_alphanumeric` is the library's table of
-- Unicode, a parameter; the texts are lists of code points.
use Prim.Native.Char.{code}
use ciel_sol.Base.{
  ℕ, ◌+◌, Bool, true, false, List, [], ◌∷◌, ◌++◌, map, String, str_eq, ◌==◌, leb, if◌then◌else◌,
  any, every, is_empty, ◌&&◌, ◌||◌,
}
use ciel_sol.Checkers.Json.{Text}
use ciel_sol.Checkers.Types.{Intent}

abbrev pub codes : String → Text
codes String.[] = []
codes (String.◌∷◌ c s) = code c ∷ codes s

unfoldable pub to_ascii_lowercase : ℕ → ℕ
to_ascii_lowercase c = if leb b'A' c && leb c b'Z' then c + 32 else c

abbrev pub text_eq : Text → Text → Bool
text_eq [] [] = true
text_eq (a ∷ as') (b ∷ bs) = a == b && text_eq as' bs
text_eq _ _ = false

abbrev pub flush : Text → List Text → List Text
flush word rest = if is_empty word then rest else word ∷ rest

-- The words between the blanks; `word` is the one under way. An alphanumeric character is no white
-- space, so after the mapping only the blank separates.
unfoldable pub split_from : Text → Text → List Text
split_from word [] = flush word []
split_from word (c ∷ cs) = elim (c == 32) [
  | true ↦ flush word (split_from [] cs)
  | false ↦ split_from (word ++ c ∷ []) cs
]

abbrev pub join_rest : List Text → Text
join_rest [] = []
join_rest (t ∷ ts) = 32 ∷ (t ++ join_rest ts)

abbrev pub flag_spl_set_authority_in_cpi : String
flag_spl_set_authority_in_cpi = "SPL_SET_AUTHORITY_IN_CPI"

abbrev pub flag_spl_close_account_in_cpi : String
flag_spl_close_account_in_cpi = "SPL_CLOSE_ACCOUNT_IN_CPI"

abbrev pub flag_spl_init_account_in_cpi : String
flag_spl_init_account_in_cpi = "SPL_INIT_ACCOUNT_IN_CPI"

abbrev pub flag_bpf_upgrade_in_cpi : String
flag_bpf_upgrade_in_cpi = "BPF_UPGRADE_IN_CPI"

abbrev pub flag_bpf_set_authority_in_cpi : String
flag_bpf_set_authority_in_cpi = "BPF_SET_AUTHORITY_IN_CPI"

abbrev pub flag_bpf_close_in_cpi : String
flag_bpf_close_in_cpi = "BPF_CLOSE_IN_CPI"

abbrev pub flag_multisig_admin_handoff_candidate : String
flag_multisig_admin_handoff_candidate = "MULTISIG_ADMIN_HANDOFF_CANDIDATE"

unfoldable pub keywords_for : String → List String
keywords_for c =
    if str_eq c flag_spl_set_authority_in_cpi || str_eq c flag_bpf_set_authority_in_cpi
    then "set authority" ∷ "setauthority" ∷ "authority change" ∷ "transfer authority"
      ∷ "update admin" ∷ "updateadmin" ∷ "rotate authority" ∷ "change authority" ∷ []
    else if str_eq c flag_bpf_upgrade_in_cpi
    then "upgrade" ∷ "deploy" ∷ "redeploy" ∷ []
    else if str_eq c flag_spl_close_account_in_cpi || str_eq c flag_bpf_close_in_cpi
    then "close account" ∷ "close" ∷ []
    else if str_eq c flag_spl_init_account_in_cpi
    then "initialize" ∷ "init account" ∷ "create account" ∷ []
    else if str_eq c flag_multisig_admin_handoff_candidate
    then "multisig" ∷ "squads" ∷ "governance proposal" ∷ []
    else []

-- Each word of the keyword is one of the intent's.
unfoldable pub all_tokens_present : String → List Text → Bool
unfolding split_from to_ascii_lowercase
all_tokens_present keyword intent_tokens =
    every (λ r. any (λ t. text_eq t r) intent_tokens)
      (map (map to_ascii_lowercase) (split_from [] (codes keyword)))

module _ (is_alphanumeric : ℕ → Bool) where
  abbrev pub letter_or_blank : ℕ → ℕ
  unfolding to_ascii_lowercase
  letter_or_blank c = if is_alphanumeric c then to_ascii_lowercase c else 32

  unfoldable pub tokenize_lowercase : Text → List Text
  unfolding split_from to_ascii_lowercase
  tokenize_lowercase t = split_from [] (map letter_or_blank t)

  unfoldable pub intent_acknowledges : Intent → String → Bool
  unfolding tokenize_lowercase keywords_for all_tokens_present
  intent_acknowledges intent flag_code =
      let tokens = tokenize_lowercase (intent.description ++ join_rest intent.constraints) in
      any (λ kw. all_tokens_present kw tokens) (keywords_for flag_code)

-- ===== src/Checkers/Intent/Rules.antt =====
-- crates/ciel-checkers/src/intent_rules.rs. `f64` and the operations of `str` on Unicode text are
-- the standard library's, a parameter of the parser.
use ciel_sol.Base.{
  ℕ, Bool, false, Option, none, some, List, [], ◌∷◌, ◌++◌, map, String, ◌==◌, ltb, if◌then◌else◌,
  length, get_elem?, drop, is_empty, ◌&&◌, ◌||◌, not,
}
use ciel_sol.Base.Int.{ℤ}
use ciel_sol.Checkers.Json.{Pubkey, Text}
use ciel_sol.Checkers.Authority.Keywords.{codes, text_eq}

abbrev pub swap_tolerance_bps : ℕ
swap_tolerance_bps = 100

abbrev pub transfer_tolerance_bps : ℕ
transfer_tolerance_bps = 10

abbrev pub deposit_tolerance_bps : ℕ
deposit_tolerance_bps = 100

abbrev pub wsol_mint : Pubkey
wsol_mint = 0x069b8857feab8184fb687f634618c035dac439dc1aeb3b5598a0f00000000001

abbrev pub token_registry : List (String × Pubkey × ℕ)
token_registry =
    ("SOL", wsol_mint, 9)
    ∷ ("USDC", 0xc6fa7af3bedbad3a3d65f36aabc97431b1bbe4c2d2f6e0e47ca60203452f5d61, 6)
    ∷ ("USDT", 0xce010e60afedb22717bd63192f54145a3f965a33bb82d2c7029eb2ce1e208264, 6)
    ∷ ("ETH", 0x66e5188a1308a1db90b6d31f3fbdca8c3df2678c8112dfdd3d192c5a3cc457a8, 8)
    ∷ ("BTC", 0x8268e9a9a1444c2ba5c77a51936856b072e43fefcff5e4b01e99623c8ebb7749, 8)
    ∷ ("BONK", 0xbc07c56e60ad3d3f177382eac6548fba1fd32cfd90ca02b3e7cfa185fdce7398, 5)
    ∷ []

-- What the parser takes from the standard library.
pub record TextLib : Type 1 where
  pub F64 : Type 0
  pub from_str : Text → Option F64  -- `f64::from_str`
  pub is_finite : F64 → Bool
  pub is_positive : F64 → Bool  -- `v > 0.0`
  pub raw_units : F64 → ℕ → ℤ  -- `(amount * 10f64.powi(decimals)).round() as i128`
  pub split_whitespace : Text → List Text
  pub to_lowercase : Text → Text
  pub to_uppercase : Text → Text

unfoldable pub find_token : List (String × Pubkey × ℕ) → Text → Option (Pubkey × ℕ)
find_token [] sym = none
find_token ((s, mint, decimals) ∷ rest) sym =
    if text_eq (codes s) sym then some (mint, decimals) else find_token rest sym

abbrev pub join_words : List Text → Text
join_words [] = []
join_words (w ∷ ws) = w ++ join_more ws
  where
    join_more : List Text → Text
    join_more [] = []
    join_more (v ∷ vs) = 32 ∷ (v ++ join_more vs)

-- `tokens[i] == word`, where the index is in range
abbrev pub token_is : List Text → ℕ → String → Bool
token_is tokens i word = opt_is (get_elem? tokens i)
  where
    opt_is : Option Text → Bool
    opt_is none = false
    opt_is (some t) = text_eq t (codes word)

abbrev pub token_at : List Text → ℕ → Text
token_at tokens i = or_empty (get_elem? tokens i)
  where
    or_empty : Option Text → Text
    or_empty none = []
    or_empty (some t) = t

module _ (lib : TextLib) where
  open lib use {F64, from_str, is_finite, is_positive, split_whitespace, to_lowercase, to_uppercase}

  unfoldable pub token_info : Text → Option (Pubkey × ℕ)
  unfolding find_token
  token_info symbol = find_token token_registry (to_uppercase symbol)

  pub data IntentPattern : Type 0 where
    swap : (amount : F64) (token_in token_out : Text) → IntentPattern
    transfer : (amount : F64) (token recipient : Text) → IntentPattern
    deposit : (amount : F64) (token protocol : Text) → IntentPattern
    unrecognized : IntentPattern

  unfoldable pub parse_amount : Text → Option F64
  parse_amount s = elim (from_str s) [
    | none ↦ none
    | some v ↦ if is_finite v && is_positive v then some v else none
  ]

  unfoldable pub parse_swap : List Text → IntentPattern
  unfolding parse_amount
  parse_swap tokens =
      if not (length tokens == 5) || not (token_is tokens 3 "for")
      then unrecognized
      else elim (parse_amount (token_at tokens 1)) [
        | none ↦ unrecognized
        | some amount ↦
            swap amount (to_uppercase (token_at tokens 2)) (to_uppercase (token_at tokens 4))
      ]

  unfoldable pub parse_transfer : List Text → IntentPattern
  unfolding parse_amount
  parse_transfer tokens =
      if ltb (length tokens) 5 || not (token_is tokens 3 "to")
      then unrecognized
      else elim (parse_amount (token_at tokens 1)) [
        | none ↦ unrecognized
        | some amount ↦
            transfer amount (to_uppercase (token_at tokens 2)) (join_words (drop 4 tokens))
      ]

  unfoldable pub parse_deposit : List Text → IntentPattern
  unfolding parse_amount
  parse_deposit tokens =
      if ltb (length tokens) 5 || not (token_is tokens 3 "into")
      then unrecognized
      else elim (parse_amount (token_at tokens 1)) [
        | none ↦ unrecognized
        | some amount ↦
            deposit amount (to_uppercase (token_at tokens 2)) (join_words (drop 4 tokens))
      ]

  unfoldable pub parse_intent_goal : Text → IntentPattern
  unfolding parse_swap parse_transfer parse_deposit
  parse_intent_goal goal =
      let tokens = map to_lowercase (split_whitespace goal) in
      if is_empty tokens
      then unrecognized
      else if token_is tokens 0 "swap"
      then parse_swap tokens
      else if token_is tokens 0 "transfer" || token_is tokens 0 "send"
      then parse_transfer tokens
      else if token_is tokens 0 "deposit"
      then parse_deposit tokens
      else unrecognized

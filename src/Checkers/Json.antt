-- ===== src/Checkers/Json.antt =====
-- Texts and JSON values as the checkers build them (`format!`, `json!`). A text that the program
-- renders is kept as the pieces of its format string, and an object is a list of its entries.
use ciel_sol.Base.{
  ℕ, ◌≡◌, refl, Bool, Option, none, some, List, [], ◌∷◌, String, str_eq, str_eq_iff, arith,
  if◌then◌else◌,
}
use ciel_sol.Base.Int.{ℤ}

-- 32 bytes, read as one big-endian number.
abbrev pub Pubkey : Type 0
Pubkey = ℕ

-- A text from a user, by its code points.
abbrev pub Text : Type 0
Text = List ℕ

pub data Piece : Type 0 where
  lit : String → Piece
  num : ℕ → Piece
  int : ℤ → Piece
  key : Pubkey → Piece  -- base58
  short_key : Pubkey → Piece  -- the first and last four characters
  user : Text → Piece
  flag_of : Bool → Piece

-- The scalars of `serde_json::Value` that the checkers write.
pub data Json : Type 0 where
  null : Json
  bool : Bool → Json
  number : ℕ → Json
  integer : ℤ → Json
  text : List Piece → Json

abbrev pub Fields : Type 0
Fields = List (String × Json)

abbrev pub str : String → Json
str s = text (Piece.lit s ∷ [])

abbrev pub key_text : Pubkey → Json
key_text p = text (Piece.key p ∷ [])

-- `opt.map(|p| p.to_string())`: a missing value is `null`.
abbrev pub opt_key : Option Pubkey → Json
opt_key none = null
opt_key (some p) = key_text p

abbrev pub opt_number : Option ℕ → Json
opt_number none = null
opt_number (some n) = number n

-- `data.get(key)`
unfoldable pub get : Fields → String → Option Json
get [] k = none
get ((j, v) ∷ m) k = if str_eq j k then some v else get m k

-- `map.insert(key, value)`
unfoldable pub insert : Fields → String → Json → Fields
insert [] k v = (k, v) ∷ []
insert ((j, w) ∷ m) k v = if str_eq j k then (k, v) ∷ m else (j, w) ∷ insert m k v

-- `map.remove(key)`
unfoldable pub remove : Fields → String → Fields
remove [] k = []
remove ((j, w) ∷ m) k = let rest = remove m k in if str_eq j k then rest else (j, w) ∷ rest

pub get-insert :
    (m : Fields) (k j : String) (v : Json)
    → get (insert m k v) j ≡ (if str_eq k j then some v else get m j)
unfolding get insert
get-insert [] k j v = refl
get-insert ((i, w) ∷ m) k j v =
    ground (arith, str_eq_iff k j, str_eq_iff i k, str_eq_iff i j, get-insert m k j v)

pub get-remove :
    (m : Fields) (k j : String) → get (remove m k) j ≡ (if str_eq k j then none else get m j)
unfolding get remove
get-remove [] k j = ground arith
get-remove ((i, w) ∷ m) k j =
    ground (arith, str_eq_iff k j, str_eq_iff i k, str_eq_iff i j, get-remove m k j)

pub ruleset json_laws = (get-insert, get-remove)

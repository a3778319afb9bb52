-- ===== src/Checkers/Oracle.antt =====
-- crates/ciel-checkers/src/oracle_cache.rs: the cached prices and the parsers that fill it.
-- The arithmetic of `f64` is a parameter.
pub mod Feeds
pub mod Mainnet
pub mod Check
pub mod Empty
pub mod Pairs
pub mod Deviation
use ciel_sol.Base.{
  ℕ, zero, suc, ◌+◌, ◌-◌, ◌*◌, ◌^◌, ◌==◌, Bool, true, false, Option, none, some, List, [], ◌∷◌,
  String, ltb, leb, length, take, drop, get_elem?, if◌then◌else◌, ◌&&◌, ◌⊎◌, inl, inr,
}
use ciel_sol.Base.Int.{ℤ, pos, negsuc}
use ciel_sol.Base.Assoc.{Assoc, find, put}
use ciel_sol.Checkers.Json.{Pubkey, Json}
use ciel_sol.Fork.Executor.Calls.{from_le_bytes}

-- The operations of `f64` that the program uses: casts, `powi` of ten, arithmetic, comparison, and
-- the texts of `format!` (by the number of decimals) and of `json!`.
pub record F64Ops (F : Type 0) : Type 0 where
  pub of_int : ℤ → F
  pub powi_10 : ℤ → F
  pub mul : F → F → F
  pub div : F → F → F
  pub sub : F → F → F
  pub abs : F → F
  pub max : F → F → F
  pub gt : F → F → Bool
  pub show : ℕ → F → String
  pub json : F → Json

pub data OracleType : Type 0 where
  switchboard pyth : OracleType

pub record OraclePrice (F : Type 0) : Type 0 where
  pub oracle_type : OracleType
  pub price : F
  pub confidence : F
  pub timestamp : ℤ
  pub asset : String

pub record OracleCache (F : Type 0) : Type 0 where
  pub prices : Assoc (OraclePrice F)
  pub reference_timestamp : ℤ

module _ {F : Type 0} where
  unfoldable pub with_reference_timestamp : ℤ → OracleCache F
  with_reference_timestamp t = record { prices = []; reference_timestamp = t }

  unfoldable pub insert : OracleCache F → Pubkey → OraclePrice F → OracleCache F
  insert c pubkey price = record c { prices = put c.prices pubkey price }

  abbrev pub get : OracleCache F → Pubkey → Option (OraclePrice F)
  get c pubkey = find c.prices pubkey

pub data OracleParseError : Type 0 where
  too_short : (got need : ℕ) → OracleParseError
  bad_discriminator : (expected got : List ℕ) → OracleParseError
  bad_magic : (expected got : ℕ) → OracleParseError
  bad_account_type : (expected got : ℕ) → OracleParseError
  zero_scale : OracleParseError

-- `uN::from_le_bytes(data[offset..offset + bytes])`
abbrev pub unsigned_at : List ℕ → ℕ → ℕ → ℕ
unsigned_at bytes offset n = from_le_bytes (take n (drop offset bytes))

-- The two's complement of w bits.
abbrev pub to_signed : ℕ → ℕ → ℤ
to_signed w n = if leb (2 ^ (w - 1)) n then negsuc (2 ^ w - 1 - n) else pos n

-- `iN::from_le_bytes(data[offset..offset + bytes])`
abbrev pub signed_at : List ℕ → ℕ → ℕ → ℤ
signed_at bytes offset n = to_signed (8 * n) (unsigned_at bytes offset n)

abbrev pub same_bytes : List ℕ → List ℕ → Bool
same_bytes [] [] = true
same_bytes [] (c ∷ cs) = false
same_bytes (b ∷ bs) [] = false
same_bytes (b ∷ bs) (c ∷ cs) = b == c && same_bytes bs cs

abbrev pub sb_discriminator : List ℕ
sb_discriminator = 217 ∷ 230 ∷ 65 ∷ 101 ∷ 201 ∷ 162 ∷ 27 ∷ 125 ∷ []

abbrev pub sb_min_size : ℕ
sb_min_size = 3851

abbrev pub pyth_magic : ℕ
pyth_magic = 0xa1b2c3d4

abbrev pub pyth_account_type_price : ℕ
pyth_account_type_price = 3

abbrev pub pyth_min_size : ℕ
pyth_min_size = 240

module _ {F : Type 0} (ops : F64Ops F) where
  abbrev switchboard_decimal : List ℕ → ℕ → ℕ → F
  switchboard_decimal bytes mantissa_offset scale_offset =
      ops.div (ops.of_int (signed_at bytes mantissa_offset 16))
        (ops.powi_10 (to_signed 32 (unsigned_at bytes scale_offset 4)))

  unfoldable pub parse_switchboard_v2 : List ℕ → String → OracleParseError ⊎ OraclePrice F
  parse_switchboard_v2 bytes asset =
      if ltb (length bytes) sb_min_size
      then inl (too_short (length bytes) sb_min_size)
      else if same_bytes (take 8 bytes) sb_discriminator
      then inr (record {
        oracle_type = switchboard;
        price = switchboard_decimal bytes (341 + 25) (341 + 41);
        confidence = switchboard_decimal bytes (341 + 45) (341 + 61);
        timestamp = signed_at bytes (341 + 17) 8;
        asset = asset;
      })
      else inl (bad_discriminator sb_discriminator (take 8 bytes))

  unfoldable pub parse_pyth_price : List ℕ → String → OracleParseError ⊎ OraclePrice F
  parse_pyth_price bytes asset =
      if ltb (length bytes) pyth_min_size
      then inl (too_short (length bytes) pyth_min_size)
      else let magic = unsigned_at bytes 0 4 in
        let atype = unsigned_at bytes 8 4 in
        let scale = ops.powi_10 (signed_at bytes 20 4) in
        if magic == pyth_magic
        then if atype == pyth_account_type_price
          then inr (record {
            oracle_type = pyth;
            price = ops.mul (ops.of_int (signed_at bytes 208 8)) scale;
            confidence = ops.mul (ops.of_int (pos (unsigned_at bytes 216 8))) scale;
            timestamp = signed_at bytes 96 8;
            asset = asset;
          })
          else inl (bad_account_type pyth_account_type_price atype)
        else inl (bad_magic pyth_magic magic)

abbrev is_one : Option ℕ → Bool
is_one none = false
is_one (some b) = b == 1

-- `data[224] == 1`, false where there is no such byte
unfoldable pub pyth_is_trading : List ℕ → Bool
pyth_is_trading bytes = is_one (get_elem? bytes 224)

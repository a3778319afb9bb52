-- ===== src/Fixtures.antt =====
-- crates/ciel-fixtures/src/lib.rs: the fixture of an exploit and its forms on disk. The map of the
-- accounts is the list of its entries, one for a key.
pub mod Drift
pub mod Disk
use ciel_sol.Base.{ℕ, Bool, Option, List, String}
use ciel_sol.Base.Assoc.{Assoc}
use ciel_sol.Checkers.Types.{Transaction}
use ciel_sol.Fork.Account.{Account}

pub data FixtureError : Type 0 where
  file_not_found : (path : String) → FixtureError
  deserialization : String → FixtureError
  base64_error : String → FixtureError
  bincode_error : String → FixtureError
  io_error : String → FixtureError
  missing_account : (pubkey : String) → FixtureError

pub record FixtureMetadata : Type 0 where
  pub description : String
  pub slot : ℕ
  pub blockhash : String
  pub transaction_signature : Option String
  pub exploit_type : String
  pub expected_checkers : List String
  pub expected_verdict : String
  pub is_synthetic : Bool

pub record ExploitFixture : Type 0 where
  pub transaction : Transaction
  pub accounts : Assoc Account
  pub metadata : FixtureMetadata

pub record SerializedTransaction : Type 0 where
  pub encoding : String
  pub contents : String  -- `data`

pub record SerializedAccount : Type 0 where
  pub lamports : ℕ
  pub contents : String × String  -- `data`
  pub owner : String
  pub executable : Bool
  pub rent_epoch : ℕ

-- ===== src/Fixtures/Disk.antt =====
-- crates/ciel-fixtures/src/drift.rs: a fixture on disk. The file system's failures, Base64,
-- bincode, base58 and serde are parameters; a directory is the texts of its three files.
pub mod RoundTrip
use ciel_sol.Base.{
  ℕ, Bool, true, false, Option, none, some, List, [], ◌∷◌, String, str_eq, is_some, if◌then◌else◌,
  ◌&&◌, ◌⊎◌, inl, inr,
}
use ciel_sol.Base.Assoc.{Assoc, find, put}
use ciel_sol.Checkers.Json.{Pubkey}
use ciel_sol.Checkers.Types.{Transaction}
use ciel_sol.Fork.Account.{Account}
use ciel_sol.Signer.Attestation.{Bytes}
use ciel_sol.Fixtures.{
  FixtureError, file_not_found, deserialization, base64_error, bincode_error, io_error,
  missing_account, FixtureMetadata, ExploitFixture, SerializedTransaction, SerializedAccount,
}

-- `to_string_pretty` and `from_str` of serde_json at one type.
pub record Serde (A : Type 0) : Type 0 where
  pub to_text : A → String ⊎ String
  pub of_text : String → String ⊎ A

pub record DiskLib : Type 0 where
  pub base64_encode : Bytes → String
  pub base64_decode : String → String ⊎ Bytes
  pub serialize_tx : Transaction → String ⊎ Bytes
  pub deserialize_tx : Bytes → String ⊎ Transaction
  pub key_to_string : Pubkey → String
  pub key_from_str : String → Option Pubkey
  pub tx_serde : Serde SerializedTransaction
  pub accounts_serde : Serde (List (String × SerializedAccount))
  pub metadata_serde : Serde FixtureMetadata

pub record Directory : Type 0 where
  pub transaction_json : Option String
  pub accounts_json : Option String
  pub metadata_json : Option String

-- The first error of a step of the file system: creating the directory, or writing a file.
pub record Faults : Type 0 where
  pub create_dir_all : Option String
  pub write : String → Option String

abbrev pub Error : Type 0 → Type 0
Error A = FixtureError ⊎ A

abbrev pub then_do : {A B : Type 0} → Error A → (A → Error B) → Error B
then_do (inl e) f = inl e
then_do (inr a) f = f a

abbrev pub map_err : {A : Type 0} → (String → FixtureError) → String ⊎ A → Error A
map_err f (inl e) = inl (f e)
map_err f (inr a) = inr a

-- `insert` into the map that is keyed by texts.
abbrev pub put_text :
    List (String × SerializedAccount)
    → String
    → SerializedAccount
    → List (String × SerializedAccount)
put_text [] k a = (k, a) ∷ []
put_text ((j, b) ∷ m) k a = if str_eq j k then (k, a) ∷ m else (j, b) ∷ put_text m k a

module _ (lib : DiskLib) where
  abbrev pub serialized : Account → SerializedAccount
  serialized a = record {
    lamports = a.lamports;
    contents = (lib.base64_encode a.bytes, "base64");
    owner = lib.key_to_string a.owner;
    executable = a.executable;
    rent_epoch = a.rent_epoch;
  }

  abbrev pub serialize_accounts :
      List (String × SerializedAccount) → Assoc Account → List (String × SerializedAccount)
  serialize_accounts m [] = m
  serialize_accounts m ((k, a) ∷ accounts) =
      serialize_accounts (put_text m (lib.key_to_string k) (serialized a)) accounts

  abbrev pub written : Directory → Directory → Option String → Option FixtureError × Directory
  written before after (some e) = (some (io_error e), before)
  written before after none = (none, after)

  -- Each file is written after its text is made, and a failure leaves the files before it.
  abbrev pub write_file :
      Faults
      → String
      → Directory
      → (String → Directory)
      → String ⊎ String
      → Option FixtureError × Directory
  write_file faults name before with_file (inl e) = (some (deserialization e), before)
  write_file faults name before with_file (inr contents) =
      written before (with_file contents) (faults.write name)

  abbrev pub and_then :
      Option FixtureError × Directory
      → (Directory → Option FixtureError × Directory)
      → Option FixtureError × Directory
  and_then (some e, dir) f = (some e, dir)
  and_then (none, dir) f = f dir

  abbrev pub write_transaction :
      Faults → Directory → String ⊎ Bytes → Option FixtureError × Directory
  write_transaction faults dir (inl e) = (some (bincode_error e), dir)
  write_transaction faults dir (inr tx_bytes) =
      write_file faults "transaction.json" dir (λ s. record dir { transaction_json = some s })
        (lib.tx_serde.to_text
          (record { encoding = "base64+bincode"; contents = lib.base64_encode tx_bytes }))

  abbrev pub create : Directory → Option String → Option FixtureError × Directory
  create dir (some e) = (some (io_error e), dir)
  create dir none = (none, dir)

  unfoldable pub write_fixture_to_disk :
      Faults → ExploitFixture → Directory → Option FixtureError × Directory
  write_fixture_to_disk faults fixture dir = and_then (create dir faults.create_dir_all) (λ d0.
      and_then (write_transaction faults d0 (lib.serialize_tx fixture.transaction)) (λ d1.
        and_then
          (write_file faults "accounts.json" d1 (λ s. record d1 { accounts_json = some s })
            (lib.accounts_serde.to_text (serialize_accounts [] fixture.accounts)))
          (λ d2.
            write_file faults "metadata.json" d2 (λ s. record d2 { metadata_json = some s })
              (lib.metadata_serde.to_text fixture.metadata))))

  abbrev pub read_to_string : Option String → Error String
  read_to_string none = inl (io_error "No such file or directory")
  read_to_string (some s) = inr s

  abbrev pub key_of : String → Option Pubkey → Error Pubkey
  key_of s none = inl (missing_account s)
  key_of s (some k) = inr k

  unfoldable pub load_accounts :
      Assoc Account → List (String × SerializedAccount) → Error (Assoc Account)
  load_accounts m [] = inr m
  load_accounts m ((key_str, s) ∷ rest) =
      then_do (key_of key_str (lib.key_from_str key_str)) (λ pubkey.
        then_do (map_err base64_error (lib.base64_decode s.contents.0)) (λ bytes.
          then_do (key_of s.owner (lib.key_from_str s.owner)) (λ owner.
            load_accounts
              (put m pubkey (record {
                lamports = s.lamports;
                bytes = bytes;
                owner = owner;
                executable = s.executable;
                rent_epoch = s.rent_epoch;
              }))
              rest)))

  -- Every key of the transaction must be present.
  unfoldable pub check_keys : Assoc Account → List Pubkey → ExploitFixture → Error ExploitFixture
  check_keys accounts [] fixture = inr fixture
  check_keys accounts (k ∷ keys) fixture =
      let rest = check_keys accounts keys fixture in
      if is_some (find accounts k) then rest else inl (missing_account (lib.key_to_string k))

  unfoldable pub load_from_disk : Directory → Error ExploitFixture
  unfolding load_accounts check_keys
  load_from_disk dir = then_do (read_to_string dir.transaction_json) (λ tx_json.
      then_do (map_err deserialization (lib.tx_serde.of_text tx_json)) (λ serialized_tx.
        then_do (map_err base64_error (lib.base64_decode serialized_tx.contents)) (λ tx_bytes.
          then_do (map_err bincode_error (lib.deserialize_tx tx_bytes)) (λ transaction.
            then_do (read_to_string dir.accounts_json) (λ accounts_json.
              then_do (map_err deserialization (lib.accounts_serde.of_text accounts_json))
                (λ serialized_accounts. then_do (load_accounts [] serialized_accounts) (λ accounts.
                  then_do (read_to_string dir.metadata_json) (λ metadata_json.
                    then_do (map_err deserialization (lib.metadata_serde.of_text metadata_json))
                      (λ metadata. check_keys accounts transaction.account_keys (record {
                        transaction = transaction;
                        accounts = accounts;
                        metadata = metadata;
                      }))))))))))

  abbrev pub is_complete : Directory → Bool
  is_complete dir =
      is_some dir.transaction_json && (is_some dir.accounts_json && is_some dir.metadata_json)

  -- With the fixture that is generated where a file is missing.
  unfoldable pub load_drift_fixture : ExploitFixture → Directory → Error ExploitFixture
  load_drift_fixture generated dir = if is_complete dir then load_from_disk dir else inr generated

  unfoldable pub load_drift_real_fixture : String → Directory → Error ExploitFixture
  load_drift_real_fixture path dir =
      if is_complete dir then load_from_disk dir else inl (file_not_found path)

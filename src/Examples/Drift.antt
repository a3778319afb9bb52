-- ===== src/Examples/Drift.antt =====
-- The fixture of the Drift exploit on a disk whose texts are constants.
mod Compiled
use Prim.Native.Char.{code}
use ciel_sol.Base.{
  ℕ, ◌+◌, ◌≡◌, refl, true, Option, none, some, List, [], ◌∷◌, String, any, All, All-imp, ◌==◌,
  ==_refl, is_some, ◌↔◌, ◌⊎◌, inl, inr, arith, ap, ◌∙◌,
}
use ciel_sol.Base.Assoc.{find}
use ciel_sol.Checkers.Json.{Pubkey}
use ciel_sol.Checkers.Types.{Transaction}
use ciel_sol.Checkers.Oracle.{
  F64Ops, too_short, sb_min_size, pyth_min_size, parse_switchboard_v2, parse_pyth_price,
}
use ciel_sol.Signer.LittleEndian.{le_encode}
use ciel_sol.Fixtures.{ExploitFixture}
use ciel_sol.Fixtures.Disk.{
  DiskLib, Directory, Faults, serialize_accounts, write_fixture_to_disk, load_from_disk,
}
use ciel_sol.Fixtures.Disk.RoundTrip.{IsDisk, tx_form, load_from_disk-write_fixture_to_disk}
use ciel_sol.Fixtures.Drift.{
  Instruction, Sdk, generate_drift_fixture, build_switchboard_account_data, build_pyth_account_data,
}
use ciel_sol.Fixtures.Drift.Complete.{
  mentioned, IsSdk, generate_drift_fixture-IsKeyed, load_from_disk-generate_drift_fixture,
}
use ciel_sol.Examples.Envelope.{write_byte, write, read_from, read_from-write, read_from-write_byte}

-- The key of a phrase is the sum of its characters.
unfoldable weight : String → Pubkey
weight String.[] = 1
weight (String.◌∷◌ c s) = code c + weight s

abbrev compile : List Instruction → Pubkey → Transaction
compile ixs payer = record {
  signatures = [];
  account_keys = payer ∷ mentioned ixs;
  instructions = [];
}

abbrev sdk : Sdk
sdk = record {
  keypair_from_hash = weight;
  message = compile;
  partial_sign = λ signers blockhash tx. tx;
  base58 = λ bytes. "4vJ9JU1bJJE96FWSJKvHsmmFADCg4gpZQff4P3bkLKi";
  name_bytes = λ name. [];
}

any_own : (l : List Pubkey) → All (λ k. any (λ j. j == k) l ≡ true) l
any_own [] = tt
any_own (k ∷ l) = (rw (==_refl k) refl, All-imp (λ j e. ground (arith, e)) l (any_own l))

sdk-IsSdk : IsSdk sdk
sdk-IsSdk = record {
  message_keys = λ ixs payer. any_own (payer ∷ mentioned ixs);
  signed_keys = λ signers blockhash tx. refl;
}

abbrev fixture : ExploitFixture
fixture = generate_drift_fixture sdk

abbrev first_byte : List ℕ → Option Pubkey
first_byte [] = none
first_byte (k ∷ ks) = some k

abbrev empty_lib : DiskLib
empty_lib = record {
  base64_encode = write;
  base64_decode = λ s. inr (read_from 0 s);
  serialize_tx = λ tx. inr (1 ∷ []);
  deserialize_tx = λ bytes. inr fixture.transaction;
  key_to_string = λ k. write_byte k "";
  key_from_str = λ s. first_byte (read_from 0 s);
  tx_serde = record { to_text = λ t. inr "{}"; of_text = λ s. inl "" };
  accounts_serde = record { to_text = λ a. inr "{}"; of_text = λ s. inl "" };
  metadata_serde = record { to_text = λ m. inr "{}"; of_text = λ s. inr fixture.metadata };
}

abbrev lib : DiskLib
lib = record empty_lib {
  tx_serde = record { to_text = λ t. inr "{}"; of_text = λ s. inr (tx_form empty_lib (1 ∷ [])) };
  accounts_serde = record {
    to_text = λ a. inr "{}";
    of_text = λ s. inr (serialize_accounts empty_lib [] fixture.accounts);
  };
}

abbrev bytes_of : String ⊎ List ℕ → List ℕ
bytes_of (inl e) = []
bytes_of (inr b) = b

lib-IsDisk : IsDisk lib fixture
lib-IsDisk = record {
  base64_back = λ bytes. ap (λ b. inr b) (read_from-write bytes);
  key_back = λ k. ap first_byte (read_from-write_byte 0 k "") ∙ ap (λ j. some j) (omega arith);
  tx_back = λ bytes e. (refl, λ t q. ap (λ x. inr (tx_form empty_lib (bytes_of x))) e);
  accounts_text = λ t q. refl;
  metadata_text = λ t q. refl;
}

abbrev faults : Faults
faults = record { create_dir_all = none; write = λ name. none }

abbrev nothing : Directory
nothing = record { transaction_json = none; accounts_json = none; metadata_json = none }

writes : (write_fixture_to_disk lib faults fixture nothing).0 ≡ none
unfolding write_fixture_to_disk
writes = refl

load_from_disk-write_fixture_to_disk_example :
    (load_from_disk lib (write_fixture_to_disk lib faults fixture nothing).1 ≡ inr fixture)
    ↔ All (λ k. is_some (find fixture.accounts k) ≡ true) fixture.transaction.account_keys
load_from_disk-write_fixture_to_disk_example =
    load_from_disk-write_fixture_to_disk lib fixture lib-IsDisk faults nothing
      (generate_drift_fixture-IsKeyed sdk sdk-IsSdk) writes

load_from_disk-generate_drift_fixture_example :
    load_from_disk lib (write_fixture_to_disk lib faults fixture nothing).1 ≡ inr fixture
load_from_disk-generate_drift_fixture_example =
    load_from_disk-generate_drift_fixture sdk sdk-IsSdk lib faults nothing lib-IsDisk writes

-- The parsers of the oracle cache take neither of the two feeds of the fixture.
feeds_too_short :
    {F : Type 0} (ops : F64Ops F) (asset : String)
    → (parse_switchboard_v2 ops build_switchboard_account_data asset
        ≡ inl (too_short 128 sb_min_size))
      × (parse_pyth_price ops build_pyth_account_data asset ≡ inl (too_short 128 pyth_min_size))
unfolding parse_switchboard_v2 parse_pyth_price build_switchboard_account_data
    build_pyth_account_data le_encode
feeds_too_short ops asset = (refl, refl)

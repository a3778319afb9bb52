-- ===== src/Fixtures/Drift.antt =====
-- crates/ciel-fixtures/src/drift.rs: the synthetic fixture of the Drift exploit. The key that a
-- seed phrase gives, the compilation of a message and the signing of a transaction are the Solana
-- SDK's, a parameter, as is the base58 text of a hash.
pub mod Complete
pub mod Detected
use ciel_sol.Base.{
  ℕ, ◌+◌, ◌-◌, ◌*◌, ◌^◌, Bool, true, false, Option, none, some, List, [], ◌∷◌, ◌++◌, String,
  replicate, take, drop, length,
}
use ciel_sol.Base.Assoc.{Assoc, insert_all}
use ciel_sol.Base.Int.{ℤ, pos, negsuc}
use ciel_sol.Checkers.Json.{Pubkey}
use ciel_sol.Checkers.Types.{Transaction}
use ciel_sol.Checkers.Registry.{spl_token_program_id, drift_v2_program_id}
use ciel_sol.Fork.Account.{Account}
use ciel_sol.Fork.Executor.Oracles.{switchboard_v2_program_id, pyth_program_id}
use ciel_sol.Signer.Attestation.{Bytes}
use ciel_sol.Signer.LittleEndian.{le_encode}
use ciel_sol.Fixtures.{FixtureMetadata, ExploitFixture}

pub record AccountMeta : Type 0 where
  pub pubkey : Pubkey
  pub is_signer : Bool
  pub is_writable : Bool

pub record Instruction : Type 0 where
  pub program_id : Pubkey
  pub accounts : List AccountMeta
  pub bytes : Bytes  -- `data`

pub record Sdk : Type 0 where
  pub keypair_from_hash : String → Pubkey  -- `keypair_from_seed(hash(phrase))`, its public key
  pub message : List Instruction → Pubkey → Transaction  -- `Message::new`, unsigned
  pub partial_sign : List Pubkey → Bytes → Transaction → Transaction
  pub base58 : Bytes → String
  pub name_bytes : String → Bytes  -- `as_bytes`

abbrev pub system_program_id : Pubkey
system_program_id = 0

abbrev pub loader_id : Pubkey
loader_id = 0x2a8f6914e88a1b0e210153ef763ae2b00c2b93d16c124d2c0537a1004800000

abbrev pub native_loader_id : Pubkey
native_loader_id = 0x58784bf148ba4282fb012574888a9f153a07dadf765c0455c9a970380000000

abbrev pub synthetic_slot : ℕ
synthetic_slot = 350000000

abbrev pub drain_amount : ℕ
drain_amount = 285000000 * 1000000

-- The bits of the `f64` 200.0 and 0.45.
abbrev pub switchboard_price : ℕ
switchboard_price = 0x4069000000000000

abbrev pub switchboard_std_dev : ℕ
switchboard_std_dev = 0x3fdccccccccccccd

abbrev pub pyth_price : ℕ
pyth_price = 14250

abbrev pub pyth_confidence : ℕ
pyth_confidence = 38

-- -2 in 32 bits
abbrev pub pyth_exponent : ℕ
pyth_exponent = 2 ^ 32 - 2

-- `data[at..at + bytes.len()].copy_from_slice(&bytes)`
abbrev pub copy_at : ℕ → Bytes → Bytes → Bytes
copy_at at bytes data_ = take at data_ ++ (bytes ++ drop (at + length bytes) data_)

unfoldable pub build_synthetic_switchboard_data : Bytes
unfolding le_encode
build_synthetic_switchboard_data = replicate 8 0 ++ le_encode 8 switchboard_price

unfoldable pub build_switchboard_account_data : Bytes
unfolding le_encode
build_switchboard_account_data = copy_at 16 (le_encode 8 synthetic_slot) (
    copy_at 8 (le_encode 8 switchboard_std_dev)
      (copy_at 0 (le_encode 8 switchboard_price) (replicate 128 0)))

unfoldable pub build_pyth_account_data : Bytes
unfolding le_encode
build_pyth_account_data = copy_at 20 (le_encode 8 synthetic_slot) (
    copy_at 16 (le_encode 4 pyth_exponent) (
      copy_at 8 (le_encode 8 pyth_confidence)
        (copy_at 0 (le_encode 8 pyth_price) (replicate 128 0))))

-- `10_000_000_000 * 10u64.pow(decimals)`, which is called with 6.
unfoldable pub build_mint_data : ℕ → Bytes
unfolding le_encode
build_mint_data decimals = copy_at 45 (1 ∷ []) (
    copy_at 44 (decimals ∷ []) (
      copy_at 36 (le_encode 8 (10000000000 * 10 ^ decimals))
        (copy_at 0 (le_encode 4 0) (replicate 82 0))))

abbrev pub reverse_onto : Bytes → Bytes → Bytes
reverse_onto [] acc = acc
reverse_onto (b ∷ bytes) acc = reverse_onto bytes (b ∷ acc)

-- `pubkey.as_ref()`: the 32 bytes of the number, the first one the highest.
abbrev pub key_bytes : Pubkey → Bytes
key_bytes k = reverse_onto (le_encode 32 k) []

unfoldable pub build_token_account_data : Pubkey → Pubkey → ℕ → Bytes
unfolding le_encode
build_token_account_data mint owner amount = copy_at 108 (1 ∷ []) (
    copy_at 64 (le_encode 8 amount)
      (copy_at 32 (key_bytes owner) (copy_at 0 (key_bytes mint) (replicate 165 0))))

-- `AccountMeta::new` and `AccountMeta::new_readonly`
abbrev pub writable : Pubkey → Bool → AccountMeta
writable k signer = record { pubkey = k; is_signer = signer; is_writable = true }

abbrev pub readonly : Pubkey → Bool → AccountMeta
readonly k signer = record { pubkey = k; is_signer = signer; is_writable = false }

abbrev account : ℕ → Bytes → Pubkey → Bool → Account
account lamports bytes owner executable = record {
  lamports = lamports;
  bytes = bytes;
  owner = owner;
  executable = executable;
  rent_epoch = 0;
}

module _ (sdk : Sdk) where
  unfoldable pub deterministic_keypair : String → Pubkey
  deterministic_keypair phrase = sdk.keypair_from_hash phrase

  abbrev pub attacker : Pubkey
  attacker = deterministic_keypair "ciel-drift-fixture-attacker"

  abbrev pub oracle_authority : Pubkey
  oracle_authority = deterministic_keypair "ciel-drift-fixture-oracle-authority"

  abbrev pub vault_authority : Pubkey
  vault_authority = deterministic_keypair "ciel-drift-fixture-vault-authority"

  abbrev pub switchboard_feed : Pubkey
  switchboard_feed = deterministic_keypair "ciel-drift-fixture-switchboard-feed"

  abbrev pub pyth_feed : Pubkey
  pyth_feed = deterministic_keypair "ciel-drift-fixture-pyth-feed"

  abbrev pub usdc_mint : Pubkey
  usdc_mint = deterministic_keypair "ciel-drift-fixture-usdc-mint"

  abbrev pub vault_token_account : Pubkey
  vault_token_account = deterministic_keypair "ciel-drift-fixture-vault-token"

  abbrev pub attacker_token_account : Pubkey
  attacker_token_account = deterministic_keypair "ciel-drift-fixture-attacker-token"

  abbrev pub switchboard_update_ix : Instruction
  switchboard_update_ix = record {
    program_id = switchboard_v2_program_id;
    accounts = writable switchboard_feed false ∷ readonly oracle_authority true ∷ [];
    bytes = build_synthetic_switchboard_data;
  }

  abbrev pub set_authority_ix : Instruction
  set_authority_ix = record {
    program_id = spl_token_program_id;
    accounts = writable vault_token_account false ∷ readonly vault_authority true ∷ [];
    bytes = 6 ∷ 2 ∷ 1 ∷ key_bytes attacker;
  }

  abbrev pub transfer_ix : Instruction
  transfer_ix = record {
    program_id = spl_token_program_id;
    accounts =
        writable vault_token_account false
        ∷ writable attacker_token_account false
        ∷ readonly attacker true
        ∷ [];
    bytes = 3 ∷ le_encode 8 drain_amount;
  }

  abbrev pub fixture_instructions : List Instruction
  fixture_instructions = switchboard_update_ix ∷ set_authority_ix ∷ transfer_ix ∷ []

  abbrev pub fixture_transaction : Transaction
  fixture_transaction =
      sdk.partial_sign (attacker ∷ oracle_authority ∷ vault_authority ∷ []) (replicate 32 1)
        (sdk.message fixture_instructions attacker)

  abbrev pub program_account : Pubkey × String → Pubkey × Account
  program_account (id, name) = (id, account 1141440 (sdk.name_bytes name) loader_id true)

  -- The insertions in their order.
  abbrev pub account_entries : List (Pubkey × Account)
  account_entries =
      (attacker, account 10000000000 [] system_program_id false)
      ∷ (oracle_authority, account 1000000000 [] system_program_id false)
      ∷ (vault_authority, account 1000000000 [] system_program_id false)
      ∷ (
        switchboard_feed,
        account 6124800 build_switchboard_account_data switchboard_v2_program_id false,
      )
      ∷ (pyth_feed, account 6124800 build_pyth_account_data pyth_program_id false)
      ∷ (usdc_mint, account 1461600 (build_mint_data 6) spl_token_program_id false)
      ∷ (
        vault_token_account,
        account 2039280 (build_token_account_data usdc_mint vault_authority drain_amount)
            spl_token_program_id false,
      )
      ∷ (
        attacker_token_account,
        account 2039280 (build_token_account_data usdc_mint attacker 0) spl_token_program_id false,
      )
      ∷ program_account (spl_token_program_id, "spl-token")
      ∷ program_account (switchboard_v2_program_id, "switchboard-v2")
      ∷ program_account (pyth_program_id, "pyth")
      ∷ program_account (drift_v2_program_id, "drift-v2")
      ∷ (system_program_id, account 1 [] native_loader_id true)
      ∷ []

  unfoldable pub generate_drift_fixture : ExploitFixture
  generate_drift_fixture = record {
    transaction = fixture_transaction;
    accounts = insert_all [] account_entries;
    metadata = record {
      description =
          "Synthetic Drift Protocol exploit fixture — oracle price manipulation + admin key transfer (April 1, 2026 scenario)";
      slot = synthetic_slot;
      blockhash = sdk.base58 (replicate 32 1);
      transaction_signature = none;
      exploit_type = "oracle_manipulation + authority_transfer";
      expected_checkers = "oracle_sanity" ∷ "authority_diff" ∷ [];
      expected_verdict = "BLOCK";
      is_synthetic = true;
    };
  }

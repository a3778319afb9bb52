-- ===== src/Fixtures/Drift/Complete.antt =====
-- The generated fixture has an account for each key of its transaction.
use ciel_sol.Base.{
  ◌≡◌, refl, true, List, [], ◌∷◌, ◌++◌, map, any, All, All-imp, is_some, ◌==◌, ◌||◌, arith, ◌∙◌,
  subst, sym, none, inr,
}
use ciel_sol.Base.Assoc.{Assoc, find, put, find-put, insert_all}
use ciel_sol.Base.Assoc.Keyed.{IsKeyed, insert_all-IsKeyed}
use ciel_sol.Checkers.Json.{Pubkey}
use ciel_sol.Checkers.Types.{Transaction}
use ciel_sol.Fork.Account.{Account}
use ciel_sol.Signer.Attestation.{Bytes}
use ciel_sol.Fixtures.Disk.{DiskLib, Directory, Faults, write_fixture_to_disk, load_from_disk}
use ciel_sol.Fixtures.Disk.RoundTrip.{IsDisk, load_from_disk-write_fixture_to_disk}
use ciel_sol.Fixtures.Drift.{
  AccountMeta, Instruction, Sdk, attacker, fixture_instructions, account_entries,
  generate_drift_fixture,
}

abbrev keys_of : List AccountMeta → List Pubkey
keys_of metas = map (λ m. m.pubkey) metas

-- The keys that a message is compiled from.
abbrev pub mentioned : List Instruction → List Pubkey
mentioned [] = []
mentioned (ix ∷ ixs) = ix.program_id ∷ (keys_of ix.accounts ++ mentioned ixs)

-- A message holds no other keys, and signing changes none.
pub record IsSdk (sdk : Sdk) : Type 0 where
  pub message_keys :
      (ixs : List Instruction) (payer : Pubkey)
      → All
          (λ k. any (λ j. j == k) (payer ∷ mentioned ixs) ≡ true)
          (sdk.message ixs payer).account_keys
  pub signed_keys :
      (signers : List Pubkey) (blockhash : Bytes) (tx : Transaction)
      → (sdk.partial_sign signers blockhash tx).account_keys ≡ tx.account_keys

find-insert_all :
    (m l : Assoc Account) (k : Pubkey)
    → is_some (find (insert_all m l) k) ≡ (any (λ e. e.0 == k) l || is_some (find m k))
find-insert_all m [] k = refl
find-insert_all m ((j, a) ∷ l) k =
    find-insert_all (put m j a) l k ∙ ground (arith, find-put m j k a)

module _ (sdk : Sdk) (h : IsSdk sdk) where
  mentioned-entries :
      (k : Pubkey)
      → any (λ j. j == k) (attacker sdk ∷ mentioned (fixture_instructions sdk)) ≡ true
      → any (λ e. e.0 == k) (account_entries sdk) ≡ true
  mentioned-entries k e = ground arith

  generated_keys :
      All
        (λ k. is_some (find (generate_drift_fixture sdk).accounts k) ≡ true)
        (generate_drift_fixture sdk).transaction.account_keys
  unfolding generate_drift_fixture
  generated_keys =
      subst (All (λ k. is_some (find (insert_all [] (account_entries sdk)) k) ≡ true))
        (sym (h.signed_keys _ _ _))
        (All-imp
          (λ k e.
            find-insert_all [] (account_entries sdk) k ∙ ground (arith, mentioned-entries k e))
          (sdk.message (fixture_instructions sdk) (attacker sdk)).account_keys
          (h.message_keys (fixture_instructions sdk) (attacker sdk)))

  pub generate_drift_fixture-IsKeyed : IsKeyed (generate_drift_fixture sdk).accounts
  unfolding generate_drift_fixture
  generate_drift_fixture-IsKeyed = insert_all-IsKeyed [] (account_entries sdk) tt

  -- The generated fixture, once written without a failure, is loaded as it was, where the SDK puts
  -- only keys of the payer and of the instructions into a message and the libraries of the disk
  -- read back what they write.
  pub load_from_disk-generate_drift_fixture :
      (lib : DiskLib) (faults : Faults) (d : Directory)
      → IsDisk lib (generate_drift_fixture sdk)
      → (write_fixture_to_disk lib faults (generate_drift_fixture sdk) d).0 ≡ none
      → load_from_disk lib (write_fixture_to_disk lib faults (generate_drift_fixture sdk) d).1
        ≡ inr (generate_drift_fixture sdk)
  load_from_disk-generate_drift_fixture lib faults d back k =
      (load_from_disk-write_fixture_to_disk lib (generate_drift_fixture sdk) back faults d
          generate_drift_fixture-IsKeyed k).1
        generated_keys

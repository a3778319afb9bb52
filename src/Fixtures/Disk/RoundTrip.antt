-- ===== src/Fixtures/Disk/RoundTrip.antt =====
-- What is read of a fixture that was written.
use ciel_sol.Base.{
  ◌≡◌, refl, true, Bool-cases, Option, none, some, List, [], ◌∷◌, String, str_eq_iff, is_some, All,
  ◌⊎◌, inl, inr, ◌↔◌, arith, ap, ◌∙◌, sym,
}
use ciel_sol.Base.Assoc.{Assoc, find, put, insert_all}
use ciel_sol.Base.Assoc.Keyed.{IsKeyed, insert_all-keyed}
use ciel_sol.Checkers.Json.{Pubkey}
use ciel_sol.Fork.Account.{Account}
use ciel_sol.Signer.Attestation.{Bytes}
use ciel_sol.Fixtures.{FixtureError, ExploitFixture, SerializedTransaction, SerializedAccount}
use ciel_sol.Fixtures.Disk.{
  Serde, DiskLib, Directory, Faults, put_text, serialized, serialize_accounts, written, write_file,
  and_then, write_transaction, create, write_fixture_to_disk, load_accounts, check_keys,
  load_from_disk,
}

-- The text of a value is read back.
abbrev pub IsBack : {A : Type 0} → Serde A → A → Type 0
IsBack s a = (t : String) → s.to_text a ≡ inr t → s.of_text t ≡ inr a

abbrev pub tx_form : DiskLib → Bytes → SerializedTransaction
tx_form lib bytes = record { encoding = "base64+bincode"; contents = lib.base64_encode bytes }

-- The libraries read back what they write of a fixture.
pub record IsDisk (lib : DiskLib) (f : ExploitFixture) : Type 0 where
  pub base64_back : (bytes : Bytes) → lib.base64_decode (lib.base64_encode bytes) ≡ inr bytes
  pub key_back : (k : Pubkey) → lib.key_from_str (lib.key_to_string k) ≡ some k
  pub tx_back :
      (bytes : Bytes)
      → lib.serialize_tx f.transaction ≡ inr bytes
      → (lib.deserialize_tx bytes ≡ inr f.transaction) × IsBack lib.tx_serde (tx_form lib bytes)
  pub accounts_text : IsBack lib.accounts_serde (serialize_accounts lib [] f.accounts)
  pub metadata_text : IsBack lib.metadata_serde f.metadata

module _ (lib : DiskLib) (f : ExploitFixture) (h : IsDisk lib f) where
  -- The entries in their form on disk.
  abbrev texts : Assoc Account → List (String × SerializedAccount)
  texts [] = []
  texts ((k, a) ∷ m) = (lib.key_to_string k, serialized lib a) ∷ texts m

  key_to_string_inj : (j k : Pubkey) → lib.key_to_string j ≡ lib.key_to_string k → j ≡ k
  key_to_string_inj j k e = some_eq (sym (h.key_back j) ∙ ap lib.key_from_str e ∙ h.key_back k)
    where
      some_eq : some j ≡ some k → j ≡ k
      some_eq q = cc

  put_text-texts :
      (m : Assoc Account) (k : Pubkey) (a : Account)
      → put_text (texts m) (lib.key_to_string k) (serialized lib a) ≡ texts (put m k a)
  unfolding put
  put_text-texts [] k a = refl
  put_text-texts ((j, b) ∷ m) k a = ground (
    arith,
    put_text-texts m k a,
    str_eq_iff (lib.key_to_string j) (lib.key_to_string k),
    key_to_string_inj j k,
  )

  serialize_accounts-texts :
      (m l : Assoc Account) → serialize_accounts lib (texts m) l ≡ texts (insert_all m l)
  serialize_accounts-texts m [] = refl
  serialize_accounts-texts m ((k, a) ∷ l) =
      ap (λ x. serialize_accounts lib x l) (put_text-texts m k a)
      ∙ serialize_accounts-texts (put m k a) l

  load_accounts-texts : (m l : Assoc Account) → load_accounts lib m (texts l) ≡ inr (insert_all m l)
  unfolding load_accounts
  load_accounts-texts m [] = refl
  load_accounts-texts m ((k, a) ∷ l) =
      rw (h.key_back k, h.base64_back a.bytes, h.key_back a.owner)
        (load_accounts-texts (put m k a) l)

  -- The accounts are read back.
  accounts_back :
      (l : Assoc Account) → IsKeyed l → load_accounts lib [] (serialize_accounts lib [] l) ≡ inr l
  accounts_back l w =
      ap (load_accounts lib []) (serialize_accounts-texts [] l ∙ ap texts (insert_all-keyed l w))
      ∙ load_accounts-texts [] l
      ∙ ap (λ x. inr x) (insert_all-keyed l w)

  abbrev Step : Type 0
  Step = Option FixtureError × Directory

  and_then-none :
      (x : Step) (f : Directory → Step)
      → (and_then lib x f).0 ≡ none
      → (and_then lib x f ≡ f x.1) × ((f x.1).0 ≡ none) × (x.0 ≡ none)
  and_then-none (some e, d) f k = cc
  and_then-none (none, d) f k = (refl, k, refl)

  written-none :
      (before after : Directory) (x : Option String)
      → (written lib before after x).0 ≡ none
      → (written lib before after x).1 ≡ after
  written-none before after (some e) k = cc
  written-none before after none k = refl

  write_file-none :
      (faults : Faults) (name : String) (d : Directory) (f : String → Directory)
      (x : String ⊎ String)
      → (write_file lib faults name d f x).0 ≡ none
      → (t : String) × ((x ≡ inr t) × ((write_file lib faults name d f x).1 ≡ f t))
  write_file-none faults name d f (inl e) k = cc
  write_file-none faults name d f (inr t) k =
      (t, (refl, written-none d (f t) (faults.write name) k))

  create-none :
      (d : Directory) (x : Option String) → (create lib d x).0 ≡ none → (create lib d x).1 ≡ d
  create-none d (some e) k = cc
  create-none d none k = refl

  write_transaction-none :
      (faults : Faults) (d : Directory) (x : String ⊎ Bytes)
      → (write_transaction lib faults d x).0 ≡ none
      → (bytes : Bytes) × (t : String) × (x ≡ inr bytes)
        × (lib.tx_serde.to_text (tx_form lib bytes) ≡ inr t)
        × ((write_transaction lib faults d x).1 ≡ record d { transaction_json = some t })
  write_transaction-none faults d (inl e) k = cc
  write_transaction-none faults d (inr bytes) k =
      let w =
        write_file-none faults "transaction.json" d (λ s. record d { transaction_json = some s })
          (lib.tx_serde.to_text (tx_form lib bytes)) k in
      (bytes, w.0, refl, w.1.0, w.1.1)

  -- The files of a fixture.
  record Holds (d : Directory) : Type 0 where
    tx_bytes : Bytes
    tx_text : String
    accounts_text : String
    metadata_text : String
    tx_serialized : lib.serialize_tx f.transaction ≡ inr tx_bytes
    tx_printed : lib.tx_serde.to_text (tx_form lib tx_bytes) ≡ inr tx_text
    accounts_printed :
        lib.accounts_serde.to_text (serialize_accounts lib [] f.accounts) ≡ inr accounts_text
    metadata_printed : lib.metadata_serde.to_text f.metadata ≡ inr metadata_text
    has_files : d ≡ record {
      transaction_json = some tx_text;
      accounts_json = some accounts_text;
      metadata_json = some metadata_text;
    }

  write-Holds :
      (faults : Faults) (d : Directory)
      → (write_fixture_to_disk lib faults f d).0 ≡ none
      → Holds (write_fixture_to_disk lib faults f d).1
  unfolding write_fixture_to_disk
  write-Holds faults d k =
      let x0 = create lib d faults.create_dir_all in
      let s0 = and_then-none x0 _ k in
      let x1 = write_transaction lib faults x0.1 (lib.serialize_tx f.transaction) in
      let s1 = and_then-none x1 _ s0.1 in
      let t1 = write_transaction-none faults x0.1 (lib.serialize_tx f.transaction) s1.2 in
      let x2 =
        write_file lib faults "accounts.json" x1.1 (λ s. record x1.1 { accounts_json = some s })
          (lib.accounts_serde.to_text (serialize_accounts lib [] f.accounts)) in
      let s2 = and_then-none x2 _ s1.1 in
      let t2 =
        write_file-none faults "accounts.json" x1.1 (λ s. record x1.1 { accounts_json = some s })
          (lib.accounts_serde.to_text (serialize_accounts lib [] f.accounts)) s2.2 in
      let t3 =
        write_file-none faults "metadata.json" x2.1 (λ s. record x2.1 { metadata_json = some s })
          (lib.metadata_serde.to_text f.metadata) s2.1 in
      record {
        tx_bytes = t1.0;
        tx_text = t1.1;
        accounts_text = t2.0;
        metadata_text = t3.0;
        tx_serialized = t1.2;
        tx_printed = t1.3;
        accounts_printed = t2.1.0;
        metadata_printed = t3.1.0;
        has_files =
            ap (λ x. x.1) (s0.0 ∙ s1.0 ∙ s2.0)
            ∙ t3.1.1
            ∙ ap {B = Directory} (λ (d2 : Directory). record d2 { metadata_json = some t3.0 })
                (t2.1.1
                  ∙ ap {B = Directory} (λ (d1 : Directory). record d1 { accounts_json = some t2.0 })
                      (t1.4
                        ∙ ap {B = Directory}
                            (λ (d0 : Directory). record d0 { transaction_json = some t1.1 })
                            (create-none d faults.create_dir_all s0.2)));
      }

  loads :
      (d : Directory)
      → IsKeyed f.accounts
      → Holds d
      → load_from_disk lib d ≡ check_keys lib f.accounts f.transaction.account_keys f
  unfolding load_from_disk
  loads d w o =
      rw
        (
          o.has_files,
          (h.tx_back o.tx_bytes o.tx_serialized).1 o.tx_text o.tx_printed,
          h.base64_back o.tx_bytes,
          (h.tx_back o.tx_bytes o.tx_serialized).0,
          h.accounts_text o.accounts_text o.accounts_printed,
          accounts_back f.accounts w,
          h.metadata_text o.metadata_text o.metadata_printed,
        )
        refl

  -- The check of the keys.
  check_keys_iff :
      (m : Assoc Account) (keys : List Pubkey)
      → (check_keys lib m keys f ≡ inr f) ↔ All (λ k. is_some (find m k) ≡ true) keys
  unfolding check_keys
  check_keys_iff m [] = ((λ e. tt), (λ a. refl))
  check_keys_iff m (k ∷ keys) = elim (Bool-cases (is_some (find m k))) [
    | inl e ↦
        rw e ((λ q. (refl, (check_keys_iff m keys).0 q)), (λ a. (check_keys_iff m keys).1 a.1))
    | inr e ↦ rw e ((λ q. cc), (λ a. cc))
  ]

  -- A fixture with one account for a key that was written without a failure is loaded again exactly
  -- if each key of its transaction has an account, where the libraries read back what they write.
  pub load_from_disk-write_fixture_to_disk :
      (faults : Faults) (d : Directory)
      → IsKeyed f.accounts
      → (write_fixture_to_disk lib faults f d).0 ≡ none
      → (load_from_disk lib (write_fixture_to_disk lib faults f d).1 ≡ inr f)
        ↔ All (λ k. is_some (find f.accounts k) ≡ true) f.transaction.account_keys
  load_from_disk-write_fixture_to_disk faults d w k =
      let o = loads (write_fixture_to_disk lib faults f d).1 w (write-Holds faults d k) in
      let c = check_keys_iff f.accounts f.transaction.account_keys in
      ((λ e. c.0 (sym o ∙ e)), (λ a. o ∙ c.1 a))

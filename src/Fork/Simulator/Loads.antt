-- ===== src/Fork/Simulator/Loads.antt =====
-- What a load leaves for the next.
use ciel_sol.Base.{
  ℕ, ◌≡◌, refl, true, false, Bool, none, some, Option, String, ◌⊎◌, inl, inr, arith, sym, ◌∙◌, ap,
  if◌then◌else◌, ==_refl,
}
use ciel_sol.Checkers.Json.{Pubkey}
use ciel_sol.Fork.Account.{Account}
use ciel_sol.Fork.Error.{ForkError}
use ciel_sol.Fork.Cache.{get, insert}
use ciel_sol.Fork.Cache.Laws.{IsValid, peek, peek-insert, get-unseen}
use ciel_sol.Fork.Simulator.{
  Libraries, ForkSimulator, injected, fetched, found_or_fetched, load_account, offline_error,
}

module _ {Svm R : Type 0} (lib : Libraries Svm R) (now : ℕ) (pubkey : Pubkey) where
  inject-cache :
      (account : Account) (s : ForkSimulator Svm) (x : String ⊎ Svm)
      → (injected lib now account s x).1.cache ≡ s.cache
  inject-cache account s (inl e) = refl
  inject-cache account s (inr svm) = refl

  inject-some :
      (account b : Account) (s : ForkSimulator Svm) (x : String ⊎ Svm)
      → (injected lib now account s x).0 ≡ inr b
      → account ≡ b
  inject-some account b s (inl e) h = cc
  inject-some account b s (inr svm) h = cc

  fetched-cached :
      (s : ForkSimulator Svm) (x : (ForkError ⊎ Account) × R) (a : Account)
      → (fetched lib now pubkey s x).0.0 ≡ inr a
      → peek (fetched lib now pubkey s x).0.1.cache now pubkey ≡ some a
  fetched-cached s (inl e, r) a h = cc
  fetched-cached s (inr account, r) a h =
      let s' : ForkSimulator Svm = record s { cache = insert s.cache now pubkey account false } in
      let answer = lib.set_account s'.svm pubkey account in
      ap (λ c. peek c now pubkey) (inject-cache account s' answer)
      ∙ (peek-insert s.cache now now pubkey pubkey account false
          ∙ ground (arith, ==_refl pubkey, inject-some account a s' answer h))

  online_or :
      (s : ForkSimulator Svm) (r : R) (a : Account) (b : Bool)
      → (if b
          then fetched lib now pubkey s (lib.fetch_account r pubkey)
          else ((inl offline_error, s), r)).0.0
        ≡ inr a
      → peek
          (if b
            then fetched lib now pubkey s (lib.fetch_account r pubkey)
            else ((inl offline_error, s), r)).0.1.cache
          now
          pubkey
        ≡ some a
  online_or s r a true h = fetched-cached s (lib.fetch_account r pubkey) a h
  online_or s r a false h = cc

  loaded :
      (s : ForkSimulator Svm) (r : R) (o : Option Account) (a : Account)
      → peek s.cache now pubkey ≡ o
      → (found_or_fetched lib now pubkey s r o).0.0 ≡ inr a
      → peek (found_or_fetched lib now pubkey s r o).0.1.cache now pubkey ≡ some a
  loaded s r (some account) a g h =
      let answer = lib.set_account s.svm pubkey account in
      ap (λ c. peek c now pubkey) (inject-cache account s answer)
      ∙ (g ∙ ap some (inject-some account a s answer h))
  loaded s r none a g h = online_or s r a s.online h

  again :
      (s : ForkSimulator Svm) (r : R) (o : Option Account) (a : Account)
      → o ≡ some a
      → (found_or_fetched lib now pubkey s r o).1 ≡ r
  again s r none a h = cc
  again s r (some b) a h = refl

  -- On a cache with one entry for a key, an account that a load returns is the cache's answer for
  -- its key at that time, and a second load of it at that time does not reach the RPC manager.
  pub load_account-cached :
      (s : ForkSimulator Svm) (r r' : R) (a : Account)
      → IsValid s.cache
      → (load_account lib now pubkey s r).0.0 ≡ inr a
      → (peek (load_account lib now pubkey s r).0.1.cache now pubkey ≡ some a)
        × ((load_account lib now pubkey (load_account lib now pubkey s r).0.1 r').1 ≡ r')
  unfolding load_account get
  load_account-cached s r r' a v h =
      let unseen = get-unseen s.cache now now pubkey pubkey v (omega arith) in
      let s0 : ForkSimulator Svm = record s { cache = (get s.cache now pubkey).0 } in
      let kept = loaded s0 r (get s.cache now pubkey).1 a (unseen.1 ∙ sym unseen.0) h in
      let s1 = (load_account lib now pubkey s r).0.1 in
      (
        kept,
        again (record s1 { cache = (get s1.cache now pubkey).0 }) r' (get s1.cache now pubkey).1 a
            kept,
      )

-- ===== src/Fork/Cache/Runs.antt =====
-- The cache over a run of its operations, against a log of what was written.
use ciel_sol.Base.{
  ℕ, ◌*◌, ◌≤◌, ◌≡◌, refl, Bool, true, false, Option, none, some, List, [], ◌∷◌, ◌==◌, arith,
  Bool-cases, subst, inl, inr,
}
use ciel_sol.Checkers.Json.{Pubkey}
use ciel_sol.Fork.Cache.{
  TimestampedAccount, Entries, AccountCache, new, find, put, effective_ttl, is_expired, remove,
  get_read, get, insert, mark_monitored, evict_stale,
}
use ciel_sol.Fork.Cache.Laws.{
  IsKeyed, peek, find-put, find-erase, find-mark, put-IsKeyed, erase-IsKeyed, mark-IsKeyed,
  mark_entry,
}
use ciel_sol.Fork.Cache.Evict.{keep_fresh, find-retain, retain-IsKeyed}
use ciel_sol.Fork.Cache.Log.{
  Write, stored, marked_monitored, monitored_of, written, lives, alive, Run, started, passed,
  inserted, marked, got, evicted,
}

module _ {A : Type 0} where
  -- An entry is what was written; a key without one has nothing written, or something expired.
  abbrev Tracks : ℕ → Option (TimestampedAccount A) → Option (A × ℕ × Bool) → Type 0
  Tracks now none none = Unit
  Tracks now none (some (a, at, monitored)) = lives now at monitored ≡ false
  Tracks now (some e) none = ⊥
  Tracks now (some e) (some (a, at, monitored)) =
      (e.account ≡ a) × (e.inserted_at ≡ at) × (e.is_monitored ≡ monitored)

  record IsTracked (now : ℕ) (c : AccountCache A) (log : List (Write A)) : Type 0 where
    pub ttl : c.ttl ≡ 300 * 1000000000
    pub monitored_ttl : c.monitored_ttl ≡ 600 * 1000000000
    pub keyed : IsKeyed c.inner
    pub entries : (j : Pubkey) → Tracks now (find c.inner j) (written log j)

  Tracks-later :
      (now later : ℕ) (o : Option (TimestampedAccount A)) (w : Option (A × ℕ × Bool))
      → now ≤ later
      → Tracks now o w
      → Tracks later o w
  Tracks-later now later none none h t = t
  Tracks-later now later none (some (a, at, true)) h t = ground arith
  Tracks-later now later none (some (a, at, false)) h t = ground arith
  Tracks-later now later (some e) none h t = t
  Tracks-later now later (some e) (some (a, at, monitored)) h t = t

  insert-Tracks :
      (now : ℕ) (m : Entries A) (log : List (Write A)) (k j : Pubkey) (a : A) (monitored : Bool)
      → Tracks now (find m j) (written log j)
      → Tracks now
          (find (put m k (record { account = a; inserted_at = now; is_monitored = monitored })) j)
          (written (stored now k a monitored ∷ log) j)
  insert-Tracks now m log k j a monitored t =
      rw (find-put m k j (record { account = a; inserted_at = now; is_monitored = monitored }))
        (elim (Bool-cases (k == j)) [ inl q ↦ rw q (refl, refl, refl) | inr q ↦ rw q t ])

  mark-Tracks :
      (now : ℕ) (o : Option (TimestampedAccount A)) (w : Option (A × ℕ × Bool))
      → Tracks now o w
      → (e : TimestampedAccount A) → o ≡ some e
      → Tracks now (mark_entry o) (monitored_of w)
  mark-Tracks now none w t e q = cc
  mark-Tracks now (some d) none t e q = t
  mark-Tracks now (some d) (some (a, at, monitored)) t e q = (t.0, t.1, refl)

  fresh-Tracks :
      (c : AccountCache A) (now : ℕ) (o : Option (TimestampedAccount A)) (w : Option (A × ℕ × Bool))
      → c.ttl ≡ 300 * 1000000000
      → c.monitored_ttl ≡ 600 * 1000000000
      → Tracks now o w
      → Tracks now (keep_fresh c now o) w
  unfolding is_expired effective_ttl
  fresh-Tracks c now none w p q t = t
  fresh-Tracks c now (some e) none p q t = absurd t
  fresh-Tracks c now (some e) (some (a, at, monitored)) p q t = ground arith

  inserted-IsTracked :
      (now : ℕ) (c : AccountCache A) (log : List (Write A)) (k : Pubkey) (a : A) (monitored : Bool)
      → IsTracked now c log
      → IsTracked now (insert c now k a monitored) (stored now k a monitored ∷ log)
  unfolding insert
  inserted-IsTracked now c log k a monitored t = record {
    ttl = t.ttl;
    monitored_ttl = t.monitored_ttl;
    keyed =
        put-IsKeyed c.inner k (record { account = a; inserted_at = now; is_monitored = monitored })
          t.keyed;
    entries = λ j. insert-Tracks now c.inner log k j a monitored (t.entries j);
  }

  peek-found :
      (c : AccountCache A) (now : ℕ) (k : Pubkey) (a : A)
      → peek c now k ≡ some a
      → (e : TimestampedAccount A) × (find c.inner k ≡ some e)
  unfolding get_read
  peek-found c now k a h = found (find c.inner k) refl
    where
      found :
          (o : Option (TimestampedAccount A))
          → find c.inner k ≡ o
          → (e : TimestampedAccount A) × (find c.inner k ≡ some e)
      found none e = absurd (ground (arith, h, e))
      found (some x) e = (x, e)

  marked-IsTracked :
      (now : ℕ) (c : AccountCache A) (log : List (Write A)) (k : Pubkey) (a : A)
      → peek c now k ≡ some a
      → IsTracked now c log
      → IsTracked now (mark_monitored c k) (marked_monitored k ∷ log)
  unfolding mark_monitored
  marked-IsTracked now c log k a h t = record {
    ttl = t.ttl;
    monitored_ttl = t.monitored_ttl;
    keyed = mark-IsKeyed c.inner k t.keyed;
    entries = λ j. rw (find-mark c.inner k j) (elim (Bool-cases (k == j)) [
      | inl q ↦ rw q (
          let same : k ≡ j = ground arith in
          let (e, found) = peek-found c now k a h in
          mark-Tracks now (find c.inner j) (written log j) (t.entries j) e
            (subst (λ i. find c.inner i ≡ some e) same found))
      | inr q ↦ rw q (t.entries j)
    ]);
  }

  evicted-IsTracked :
      (now : ℕ) (c : AccountCache A) (log : List (Write A))
      → IsTracked now c log
      → IsTracked now (evict_stale c now).0 log
  unfolding evict_stale
  evicted-IsTracked now c log t = record {
    ttl = t.ttl;
    monitored_ttl = t.monitored_ttl;
    keyed = retain-IsKeyed c now c.inner t.keyed;
    entries = λ j.
        rw (find-retain c now c.inner j t.keyed)
          (fresh-Tracks c now (find c.inner j) (written log j) t.ttl t.monitored_ttl (t.entries j));
  }

  stale-keep_fresh :
      (c : AccountCache A) (now : ℕ) (k : Pubkey)
      → (get_read c now k).1 ≡ true
      → keep_fresh c now (find c.inner k) ≡ none
  unfolding get_read
  stale-keep_fresh c now k h = ground arith

  got-IsTracked :
      (now : ℕ) (c : AccountCache A) (log : List (Write A)) (k : Pubkey)
      → IsTracked now c log
      → IsTracked now (get c now k).0 log
  unfolding get remove
  got-IsTracked now c log k t = elim (Bool-cases (get_read c now k).1) [
    | inl s ↦ rw s (record {
      ttl = t.ttl;
      monitored_ttl = t.monitored_ttl;
      keyed = erase-IsKeyed c.inner k t.keyed;
      entries = λ j. rw (find-erase c.inner k j t.keyed) (elim (Bool-cases (k == j)) [
        | inl q ↦ rw q (
            let same : k ≡ j = ground arith in
            subst (λ i. Tracks now none (written log i)) same
              (rw (stale-keep_fresh c now k s) at (
                fresh-Tracks c now (find c.inner k) (written log k) t.ttl t.monitored_ttl
                  (t.entries k))))
        | inr q ↦ rw q (t.entries j)
      ]);
    })
    | inr s ↦ rw s t
  ]

  later-IsTracked :
      (now later : ℕ) (c : AccountCache A) (log : List (Write A))
      → now ≤ later
      → IsTracked now c log
      → IsTracked later c log
  later-IsTracked now later c log h t = record {
    ttl = t.ttl;
    monitored_ttl = t.monitored_ttl;
    keyed = t.keyed;
    entries = λ j. Tracks-later now later (find c.inner j) (written log j) h (t.entries j);
  }

  new-IsTracked : IsTracked 0 new []
  unfolding new find
  new-IsTracked = record { ttl = refl; monitored_ttl = refl; keyed = tt; entries = λ j. tt }

  Run-IsTracked :
      (now : ℕ) (c : AccountCache A) (log : List (Write A)) → Run now c log → IsTracked now c log
  Run-IsTracked _ _ _ started = new-IsTracked
  Run-IsTracked _ c log (passed {now} later h r) =
      later-IsTracked now later c log h (Run-IsTracked now c log r)
  Run-IsTracked now _ _ (inserted {c = c} {log} k a monitored r) =
      inserted-IsTracked now c log k a monitored (Run-IsTracked now c log r)
  Run-IsTracked now _ _ (marked {c = c} {log} k a h r) =
      marked-IsTracked now c log k a h (Run-IsTracked now c log r)
  Run-IsTracked now _ log (got {c = c} k r) = got-IsTracked now c log k (Run-IsTracked now c log r)
  Run-IsTracked now _ log (evicted {c = c} r) =
      evicted-IsTracked now c log (Run-IsTracked now c log r)

  Tracks-answer :
      (c : AccountCache A) (now : ℕ) (k : Pubkey) (o : Option (TimestampedAccount A))
      (w : Option (A × ℕ × Bool))
      → find c.inner k ≡ o
      → c.ttl ≡ 300 * 1000000000
      → c.monitored_ttl ≡ 600 * 1000000000
      → Tracks now o w
      → peek c now k ≡ alive now w
  unfolding get_read is_expired effective_ttl
  Tracks-answer c now k none none f p q t = ground (arith, f)
  Tracks-answer c now k none (some (a, at, monitored)) f p q t = ground (arith, f)
  Tracks-answer c now k (some e) none f p q t = absurd t
  Tracks-answer c now k (some e) (some (a, at, monitored)) f p q t = ground (arith, f)

  -- In every run of insert, mark_monitored, get and evict_stale from an empty cache with the
  -- default times to live, in which only keys that are answered are marked, `get` answers with the
  -- last account stored under the key while it is at most five minutes old, or ten if it was stored
  -- as monitored or has been marked since; and else with nothing.
  pub get-Run :
      (now : ℕ) (c : AccountCache A) (log : List (Write A)) (k : Pubkey)
      → Run now c log
      → (get c now k).1 ≡ alive now (written log k)
  unfolding get
  get-Run now c log k r =
      let t = Run-IsTracked now c log r in
      Tracks-answer c now k (find c.inner k) (written log k) refl t.ttl t.monitored_ttl
        (t.entries k)

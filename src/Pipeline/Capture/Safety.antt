-- ===== src/Pipeline/Capture/Safety.antt =====
-- What a cycle of the capture leaves of the table.
use ciel_sol.Base.{
  ℕ, zero, suc, ◌≡◌, refl, true, false, Bool-cases, Option, none, some, List, [], ◌∷◌, String, ◌==◌,
  if◌then◌else◌, ◌⊎◌, inl, inr, All, All-imp, All-zip, arith, take, leb, is_some,
}
use ciel_sol.Base.Int.{ℤ}
use ciel_sol.Pipeline.Capture.{
  Row, PendingVerdict, OutcomeCaptureConfig, OutcomeError, Services, is_pending, pending_of,
  insert_all, insert_by_time, pending_rows, fetch_pending_verdicts, determine_outcome, set_outcome,
  capture_all, capture_cycle, cycle_of, updated, update_verdict_outcome, apply_decision, Decision,
}

-- No later row has a row's id.
abbrev pub IsUnique : List Row → Type 0
IsUnique [] = Unit
IsUnique (r ∷ rows) = All (λ s. (s.id == r.id) ≡ false) rows × IsUnique rows

-- A row as a cycle may leave it: only the outcome and its slot change, and only of a row that was
-- pending.
pub record IsKept (r s : Row) : Type 0 where
  pub id : s.id ≡ r.id
  pub verdict : s.verdict ≡ r.verdict
  pub tx_signature : s.tx_signature ≡ r.tx_signature
  pub created_at : s.created_at ≡ r.created_at
  pub outcome :
      ((s.execution_outcome ≡ r.execution_outcome) × (s.execution_slot ≡ r.execution_slot))
      ⊎ (is_pending r ≡ true)

abbrev pub AreKept : List Row → List Row → Type 0
AreKept [] [] = Unit
AreKept [] (s ∷ ss) = ⊥
AreKept (r ∷ rs) [] = ⊥
AreKept (r ∷ rs) (s ∷ ss) = IsKept r s × AreKept rs ss

AreKept-refl : (rows : List Row) → AreKept rows rows
AreKept-refl [] = tt
AreKept-refl (r ∷ rows) = (
  record {
    id = refl;
    verdict = refl;
    tx_signature = refl;
    created_at = refl;
    outcome = inl (refl, refl);
  },
  AreKept-refl rows,
)

-- All rows with the id are pending.
abbrev OnlyPending : List Row → ℕ → Type 0
OnlyPending rows id = All (λ r. (r.id == id) ≡ true → is_pending r ≡ true) rows

set_one :
    (id : ℕ) (o : String × Option ℤ) (r s : Row)
    → ((r.id == id) ≡ true → is_pending r ≡ true)
    → IsKept r s
    → IsKept r
        (if s.id == id then record s { execution_outcome = some o.0; execution_slot = o.1 } else s)
set_one id o r s h k = elim (Bool-cases (s.id == id)) [
  | inl e ↦ rw e (record {
    id = k.id;
    verdict = k.verdict;
    tx_signature = k.tx_signature;
    created_at = k.created_at;
    outcome = inr (h (rw k.id at e));
  })
  | inr e ↦ rw e k
]

set_outcome-AreKept :
    (id : ℕ) (o : String × Option ℤ) (rs ss : List Row)
    → OnlyPending rs id
    → AreKept rs ss
    → AreKept rs (set_outcome id o ss)
unfolding set_outcome
set_outcome-AreKept id o [] [] h k = tt
set_outcome-AreKept id o [] (s ∷ ss) h k = absurd k
set_outcome-AreKept id o (r ∷ rs) [] h k = absurd k
set_outcome-AreKept id o (r ∷ rs) (s ∷ ss) h k =
    (set_one id o r s h.0 k.0, set_outcome-AreKept id o rs ss h.1 k.1)

updated-AreKept :
    (id : ℕ) (o : String × Option ℤ) (rs ss : List Row) (failure : Option String)
    → OnlyPending rs id
    → AreKept rs ss
    → AreKept rs (updated id o ss failure).1
updated-AreKept id o rs ss none h k = set_outcome-AreKept id o rs ss h k
updated-AreKept id o rs ss (some e) h k = k

apply_decision-AreKept :
    (services : Services) (id : ℕ) (rs ss : List Row) (d : OutcomeError ⊎ Decision)
    → OnlyPending rs id
    → AreKept rs ss
    → AreKept rs (apply_decision services id ss d).1
unfolding update_verdict_outcome
apply_decision-AreKept services id rs ss (inl e) h k = k
apply_decision-AreKept services id rs ss (inr none) h k = k
apply_decision-AreKept services id rs ss (inr (some o)) h k =
    updated-AreKept id o rs ss (services.update_failure id) h k

capture_all-AreKept :
    (services : Services) (now ttl : ℕ) (vs : List PendingVerdict) (rs ss : List Row)
    → All (λ v. OnlyPending rs v.id) vs
    → AreKept rs ss
    → AreKept rs (capture_all services now ttl vs ss).1
unfolding capture_all
capture_all-AreKept services now ttl [] rs ss h k = k
capture_all-AreKept services now ttl (v ∷ vs) rs ss h k =
    let d = determine_outcome services v now ttl in
    let done = apply_decision services v.id ss d in
    let step = apply_decision-AreKept services v.id rs ss d h.0 k in
    elim (Bool-cases (is_some done.0)) [
      | inl e ↦ rw e step
      | inr e ↦ rw e (capture_all-AreKept services now ttl vs rs done.1 h.1 step)
    ]

-- What the query selects has the id of a pending row.
All-insert_by_time :
    (Q : PendingVerdict → Type 0) (p : PendingVerdict) (qs : List PendingVerdict)
    → Q p
    → All Q qs
    → All Q (insert_by_time p qs)
unfolding insert_by_time
All-insert_by_time Q p [] h k = (h, tt)
All-insert_by_time Q p (q ∷ qs) h k = elim (Bool-cases (leb p.created_at q.created_at)) [
  | inl e ↦ rw e (h, k)
  | inr e ↦ rw e (k.0, All-insert_by_time Q p qs h k.1)
]

All-pending_of :
    (Q : ℕ → Type 0) (r : Row) (o : Option (List ℕ)) (qs : List PendingVerdict)
    → Q r.id
    → All (λ v. Q v.id) qs
    → All (λ v. Q v.id) (insert_all (pending_of r o) qs)
All-pending_of Q r none qs h k = k
All-pending_of Q r (some signature) qs h k =
    All-insert_by_time (λ v. Q v.id)
      (record { id = r.id; tx_signature = signature; created_at = r.created_at }) qs h k

All-pending_rows :
    (Q : ℕ → Type 0) (rows : List Row)
    → All (λ r. is_pending r ≡ true → Q r.id) rows
    → All (λ v. Q v.id) (pending_rows rows)
unfolding pending_rows
All-pending_rows Q [] h = tt
All-pending_rows Q (r ∷ rows) h = elim (Bool-cases (is_pending r)) [
  | inl e ↦
      rw e (
        All-pending_of Q r r.tx_signature (pending_rows rows) (h.0 e) (All-pending_rows Q rows h.1))
  | inr e ↦ rw e (All-pending_rows Q rows h.1)
]

All-take : {A : Type 0} (P : A → Type 0) (n : ℕ) (xs : List A) → All P xs → All P (take n xs)
All-take P zero xs h = tt
All-take P (suc n) [] h = tt
All-take P (suc n) (x ∷ xs) h = (h.0, All-take P n xs h.1)

only_pending :
    (rows : List Row) → IsUnique rows → All (λ r. is_pending r ≡ true → OnlyPending rows r.id) rows
only_pending [] u = tt
only_pending (r ∷ rows) u = (
  λ p. (λ e. p, All-imp (λ s n e. cc) rows u.0),
  All-zip (λ s n h p. (λ e. absurd (other r.id s.id n e), h p)) rows u.0 (only_pending rows u.1),
)
  where
    other : (a b : ℕ) → (b == a) ≡ false → (a == b) ≡ true → ⊥
    other a b n e = ground arith

cycle_of-AreKept :
    (services : Services) (config : OutcomeCaptureConfig) (now : ℕ) (rows : List Row)
    (failure : Option String)
    → IsUnique rows
    → AreKept rows (cycle_of services config now rows failure).1
unfolding fetch_pending_verdicts
cycle_of-AreKept services config now rows (some e) u = AreKept-refl rows
cycle_of-AreKept services config now rows none u =
    capture_all-AreKept services now config.ttl (take config.batch_size (pending_rows rows)) rows
      rows
      (All-take (λ v. OnlyPending rows v.id) config.batch_size (pending_rows rows)
        (All-pending_rows (OnlyPending rows) rows (only_pending rows u)))
      (AreKept-refl rows)

-- Where ids are unique, a cycle of the capture, however the provider and the database answer,
-- leaves every row in its place with its id, verdict, signature and time, and changes the outcome
-- of no row but of an approved one with a signature and no outcome: what was recorded is never
-- overwritten.
pub capture_cycle-AreKept :
    (services : Services) (config : OutcomeCaptureConfig) (now : ℕ) (rows : List Row)
    → IsUnique rows
    → AreKept rows (capture_cycle services config now rows).1
unfolding capture_cycle
capture_cycle-AreKept services config now rows u =
    cycle_of-AreKept services config now rows services.fetch_failure u

-- ===== src/Fork/Executor/Laws.antt =====
-- The calls and the lamport deltas of a trace.
use ciel_sol.Base.{
  ℕ, zero, suc, ◌+◌, ◌<◌, ◌≡◌, refl, Bool, true, Bool-cases, Option, none, some, List, [], ◌∷◌,
  ◌++◌, String, ◌⊎◌, inl, inr, ◌==◌, if◌then◌else◌, get_elem?, any, arith, ap, ◌∙◌, subst, ◌||◌,
}
use ciel_sol.Base.Int.{ℤ, sub_ℕ, ◌-ℤ◌}
use ciel_sol.Base.Assoc.{Assoc, find, put, find-put}
use ciel_sol.Checkers.Json.{Pubkey}
use ciel_sol.Checkers.Types.{SimulationTrace, Transaction, CompiledInstruction, CpiCall}
use ciel_sol.Fork.Account.{Account}
use ciel_sol.Fork.Executor.Changes.{
  AccountSnapshot, snapshot_from, snapshot_accounts, i64_half, wrap_i64, lamport_delta,
  pre_lamports, is_zero, deltas_from, compute_balance_deltas, snapshot_of, put_snapshot,
}
use ciel_sol.Fork.Executor.Calls.{call_of, top_level, extract_cpi_graph}
use ciel_sol.Fork.Executor.{
  Meta, Simulation, finished, failed, Vm, trace_of, execute_transaction, execute_on,
}

get_elem?-top_level :
    (keys : List Pubkey) (ixs : List CompiledInstruction) (rest : List CpiCall) (n i m : ℕ)
    (ix : CompiledInstruction)
    → n + i ≡ m
    → get_elem? ixs i ≡ some ix
    → get_elem? (top_level keys n ixs ++ rest) i ≡ some (call_of keys m 1 ix)
unfolding top_level
get_elem?-top_level keys [] rest n i m ix e h = cc
get_elem?-top_level keys (x ∷ ixs) rest n zero m ix e h = ground arith
get_elem?-top_level keys (x ∷ ixs) rest n (suc i) m ix e h =
    get_elem?-top_level keys ixs rest (suc n) i m ix (omega arith) h

-- The account that a list of accounts holds under a key.
abbrev pub IsKeyed : Assoc Account → Type 0
IsKeyed [] = Unit
IsKeyed ((j, a) ∷ m) = (find m j ≡ none) × IsKeyed m

abbrev delta_over : Option ℤ → ℤ → Option ℤ
delta_over old d = if is_zero d then old else some d

abbrev delta_at : Assoc AccountSnapshot → Option ℤ → Pubkey → Option Account → Option ℤ
delta_at pre old k none = old
delta_at pre old k (some a) = delta_over old (lamport_delta a.lamports (pre_lamports (find pre k)))

find-put_unless :
    (m : Assoc ℤ) (j k : Pubkey) (d : ℤ)
    → find (if is_zero d then m else put m j d) k
      ≡ (if j == k then delta_over (find m k) d else find m k)
find-put_unless m j k d = ground (arith, find-put m j k d)

delta_at-first :
    (pre : Assoc AccountSnapshot) (m : Assoc ℤ) (j k : Pubkey) (a : Account) (post : Assoc Account)
    → find post j ≡ none
    → delta_at pre
        (if j == k
          then delta_over (find m k) (lamport_delta a.lamports (pre_lamports (find pre j)))
          else find m k)
        k
        (find post k)
      ≡ delta_at pre (find m k) k (if j == k then some a else find post k)
delta_at-first pre m j k a post h = elim (Bool-cases (j == k)) [
  | inl e ↦ let q : j ≡ k = ground arith in rw e (rw (rw q at h) (rw q refl))
  | inr e ↦ rw e refl
]

find-deltas_from :
    (pre : Assoc AccountSnapshot) (m : Assoc ℤ) (post : Assoc Account) (k : Pubkey)
    → IsKeyed post
    → find (deltas_from pre m post) k ≡ delta_at pre (find m k) k (find post k)
unfolding deltas_from find
find-deltas_from pre m [] k h = refl
find-deltas_from pre m ((j, a) ∷ post) k h =
    find-deltas_from pre
      (if is_zero (lamport_delta a.lamports (pre_lamports (find pre j)))
        then m
        else put m j (lamport_delta a.lamports (pre_lamports (find pre j))))
      post k h.1
    ∙ (ap (λ x. delta_at pre x k (find post k))
          (find-put_unless m j k (lamport_delta a.lamports (pre_lamports (find pre j))))
        ∙ delta_at-first pre m j k a post h.0)

abbrev pub snapshot_at : Option AccountSnapshot → Option Account → Option AccountSnapshot
snapshot_at old none = old
snapshot_at old (some a) = some (snapshot_of a)

find-put_snapshot :
    (m : Assoc AccountSnapshot) (j k : Pubkey) (o : Option Account)
    → find (put_snapshot m j o) k ≡ (if j == k then snapshot_at (find m k) o else find m k)
find-put_snapshot m j k none = ground arith
find-put_snapshot m j k (some a) = find-put m j k (snapshot_of a)

snapshot_at-again :
    (x : Option AccountSnapshot) (o : Option Account) (b : Bool)
    → (if b then snapshot_at (snapshot_at x o) o else snapshot_at x o) ≡ snapshot_at x o
snapshot_at-again x none b = ground arith
snapshot_at-again x (some a) b = ground arith

snapshot-first :
    (get : Pubkey → Option Account) (x : Option AccountSnapshot) (j k : Pubkey) (later : Bool)
    → (if later
        then snapshot_at (if j == k then snapshot_at x (get j) else x) (get k)
        else if j == k
        then snapshot_at x (get j)
        else x)
      ≡ (if (j == k) || later then snapshot_at x (get k) else x)
snapshot-first get x j k later = elim (Bool-cases (j == k)) [
  | inl e ↦ let q : j ≡ k = ground arith in rw e (rw q (snapshot_at-again x (get k) later))
  | inr e ↦ rw e refl
]

find-snapshot_from :
    (get : Pubkey → Option Account) (m : Assoc AccountSnapshot) (keys : List Pubkey) (k : Pubkey)
    → find (snapshot_from get m keys) k
      ≡ (if any (λ j. j == k) keys then snapshot_at (find m k) (get k) else find m k)
unfolding snapshot_from
find-snapshot_from get m [] k = refl
find-snapshot_from get m (j ∷ keys) k =
    find-snapshot_from get (put_snapshot m j (get j)) keys k
    ∙ (ap (λ x. if any (λ j. j == k) keys then snapshot_at x (get k) else x)
          (find-put_snapshot m j k (get j))
        ∙ snapshot-first get (find m k) j k (any (λ j. j == k) keys))

-- Amounts of lamports below 2^63 are subtracted as integers.
lamport_delta-exact : (a b : ℕ) → a < i64_half → b < i64_half → lamport_delta a b ≡ sub_ℕ a b
unfolding lamport_delta wrap_i64 ◌-ℤ◌
lamport_delta-exact a b h k = ground arith

abbrev pub lamports_before : Option Account → ℕ
lamports_before none = 0
lamports_before (some a) = a.lamports

pre_lamports-snapshot_at :
    (o : Option Account) → pre_lamports (snapshot_at none o) ≡ lamports_before o
pre_lamports-snapshot_at none = refl
pre_lamports-snapshot_at (some a) = refl

pre_lamports-snapshot :
    (get : Pubkey → Option Account) (keys : List Pubkey) (k : Pubkey)
    → any (λ j. j == k) keys ≡ true
    → pre_lamports (find (snapshot_from get [] keys) k) ≡ lamports_before (get k)
unfolding find
pre_lamports-snapshot get keys k q =
    rw (find-snapshot_from get [] keys k, q) (pre_lamports-snapshot_at (get k))

delta_over-exact :
    (a b : ℕ)
    → a < i64_half
    → b < i64_half
    → delta_over none (lamport_delta a b) ≡ (if a == b then none else some (sub_ℕ a b))
delta_over-exact a b h k = rw (lamport_delta-exact a b h k) (ground arith)

module _ {Svm V3 : Type 0} (vm : Vm Svm V3) (svm : Svm) (tx : Transaction) where
  execute_on-ran :
      (x : String ⊎ V3) (trace : SimulationTrace)
      → execute_on vm svm tx x ≡ inr trace
      → (sim : Simulation) × (trace_of vm svm tx sim ≡ trace)
  execute_on-ran (inl e) trace h = cc
  execute_on-ran (inr v3) trace h = (vm.simulate_transaction svm v3, cc)

  -- A trace is that of some simulation.
  pub execute_transaction-ran :
      (trace : SimulationTrace)
      → execute_transaction vm svm tx ≡ inr trace
      → (sim : Simulation) × (trace_of vm svm tx sim ≡ trace)
  unfolding execute_transaction
  execute_transaction-ran trace h = execute_on-ran (vm.convert tx) trace h

  graph_first :
      (sim : Simulation) (i : ℕ) (ix : CompiledInstruction)
      → get_elem? tx.instructions i ≡ some ix
      → get_elem? (trace_of vm svm tx sim).cpi_graph i ≡ some (call_of tx.account_keys i 1 ix)
  unfolding trace_of extract_cpi_graph
  graph_first (finished post info) i ix h =
      get_elem?-top_level tx.account_keys tx.instructions _ 0 i i ix (omega arith) h
  graph_first (failed error info) i ix h =
      get_elem?-top_level tx.account_keys tx.instructions _ 0 i i ix (omega arith) h

  -- After a run that finishes and lists an account of the transaction once, its lamport delta is
  -- the exact difference to what it held before, and is missing where the two are equal; the
  -- amounts are below 2^63.
  pub find-balance_deltas :
      (post : Assoc Account) (info : Meta) (k : Pubkey) (a : Account)
      → IsKeyed post
      → find post k ≡ some a
      → any (λ j. j == k) tx.account_keys ≡ true
      → a.lamports < i64_half
      → lamports_before (vm.get_account svm k) < i64_half
      → find (trace_of vm svm tx (finished post info)).balance_deltas k ≡ (
          if a.lamports == lamports_before (vm.get_account svm k)
          then none
          else some (sub_ℕ a.lamports (lamports_before (vm.get_account svm k))))
  unfolding trace_of compute_balance_deltas snapshot_accounts find
  find-balance_deltas post info k a u p q h l =
      find-deltas_from (snapshot_from (vm.get_account svm) [] tx.account_keys) [] post k u
      ∙ rw (p, pre_lamports-snapshot (vm.get_account svm) tx.account_keys k q)
          (delta_over-exact a.lamports (lamports_before (vm.get_account svm k)) h l)

  -- Whether the simulation finishes or fails, the call graph of the trace starts with the
  -- instructions of the transaction, in order, as calls at stack height 1.
  pub get_elem?-cpi_graph :
      (trace : SimulationTrace) (i : ℕ) (ix : CompiledInstruction)
      → execute_transaction vm svm tx ≡ inr trace
      → get_elem? tx.instructions i ≡ some ix
      → get_elem? trace.cpi_graph i ≡ some (call_of tx.account_keys i 1 ix)
  get_elem?-cpi_graph trace i ix e h =
      let (sim, ran) = execute_transaction-ran trace e in
      subst (λ t. get_elem? t.cpi_graph i ≡ some (call_of tx.account_keys i 1 ix)) ran
        (graph_first sim i ix h)

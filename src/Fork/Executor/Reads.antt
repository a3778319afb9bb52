-- ===== src/Fork/Executor/Reads.antt =====
-- The oracle reads of a trace.
use ciel_sol.Base.{
  ℕ, ◌+◌, ◌≤◌, ◌≡◌, refl, false, Bool-cases, Option, none, some, List, [], ◌∷◌, ◌++◌, String, ◌==◌,
  if◌then◌else◌, any, ◌&&◌, not, get_elem?, arith, inl, inr,
}
use ciel_sol.Checkers.Json.{Pubkey}
use ciel_sol.Checkers.Types.{OracleRead, CompiledInstruction, Transaction}
use ciel_sol.Fork.Executor.Oracles.{
  Found, is_seen, is_oracle_program, push_read, push_index, push_indices, push_instruction, type_at,
  direct_reads, push_keys, logged_reads, found_reads, detect_oracle_reads, has_type, contains,
}

-- How many reads of a list are of a key.
abbrev pub count_reads : Pubkey → List OracleRead → ℕ
count_reads k [] = 0
count_reads k (r ∷ rs) = (if r.oracle_pubkey == k then 1 else 0) + count_reads k rs

count_reads-append :
    (k : Pubkey) (xs ys : List OracleRead)
    → count_reads k (xs ++ ys) ≡ count_reads k xs + count_reads k ys
count_reads-append k [] ys = omega arith
count_reads-append k (x ∷ xs) ys = omega (arith, count_reads-append k xs ys)

-- A key has one read if it was seen, else none, and a program of an oracle has none.
record IsCounted (k : Pubkey) (f : Found) : Type 0 where
  once : count_reads k f.reads ≡ (if is_seen f.seen k then 1 else 0)
  no_program : (is_oracle_program k && is_seen f.seen k) ≡ false

module _ (k : Pubkey) where
  push_read-IsCounted :
      (t : String) (f : Found) (j : Pubkey) → IsCounted k f → IsCounted k (push_read t f j)
  unfolding push_read
  push_read-IsCounted t f j h = ground (
    arith,
    h.once,
    h.no_program,
    count_reads-append k f.reads (record { oracle_pubkey = j; oracle_type = t } ∷ []),
  )

  push_keys-IsCounted :
      (t : String) (f : Found) (ks : List Pubkey) → IsCounted k f → IsCounted k (push_keys t f ks)
  unfolding push_keys
  push_keys-IsCounted t f [] h = h
  push_keys-IsCounted t f (j ∷ ks) h =
      push_keys-IsCounted t (push_read t f j) ks (push_read-IsCounted t f j h)

  push_index-IsCounted :
      (t : String) (keys : List Pubkey) (f : Found) (o : Option Pubkey)
      → IsCounted k f
      → IsCounted k (push_index t keys f o)
  push_index-IsCounted t keys f none h = h
  push_index-IsCounted t keys f (some j) h = push_read-IsCounted t f j h

  push_indices-IsCounted :
      (t : String) (keys : List Pubkey) (f : Found) (is : List ℕ)
      → IsCounted k f
      → IsCounted k (push_indices t keys f is)
  unfolding push_indices
  push_indices-IsCounted t keys f [] h = h
  push_indices-IsCounted t keys f (i ∷ is) h =
      push_indices-IsCounted t keys (push_index t keys f (get_elem? keys i)) is
        (push_index-IsCounted t keys f (get_elem? keys i) h)

  push_instruction-IsCounted :
      (keys : List Pubkey) (f : Found) (ix : CompiledInstruction) (o : Option String)
      → IsCounted k f
      → IsCounted k (push_instruction keys f ix o)
  push_instruction-IsCounted keys f ix none h = h
  push_instruction-IsCounted keys f ix (some t) h = push_indices-IsCounted t keys f ix.accounts h

  direct_reads-IsCounted :
      (keys : List Pubkey) (f : Found) (ixs : List CompiledInstruction)
      → IsCounted k f
      → IsCounted k (direct_reads keys f ixs)
  unfolding direct_reads
  direct_reads-IsCounted keys f [] h = h
  direct_reads-IsCounted keys f (ix ∷ ixs) h =
      direct_reads-IsCounted keys
        (push_instruction keys f ix (type_at (get_elem? keys ix.program_id_index))) ixs
        (push_instruction-IsCounted keys f ix (type_at (get_elem? keys ix.program_id_index)) h)

  logged_reads-IsCounted :
      (program t : String) (logs : List String) (keys : List Pubkey) (f : Found)
      → IsCounted k f
      → IsCounted k (logged_reads program t logs keys f)
  unfolding logged_reads
  logged_reads-IsCounted program t logs keys f h =
      elim (Bool-cases (any (λ log. contains log program) logs && not (has_type t f.reads))) [
        | inl e ↦ rw e (push_keys-IsCounted t f keys h)
        | inr e ↦ rw e h
      ]

  found_reads-IsCounted :
      (tx : Transaction) (logs : List String) → IsCounted k (found_reads tx logs)
  unfolding found_reads
  found_reads-IsCounted tx logs = logged_reads-IsCounted _ _ logs tx.account_keys _ (
      logged_reads-IsCounted _ _ logs tx.account_keys _ (
        direct_reads-IsCounted tx.account_keys _ tx.instructions
          (record { once = refl; no_program = ground arith })))

  -- An account is listed at most once among the oracle reads, whether an instruction or a log shows
  -- it, and an oracle program never.
  pub count_reads-detect_oracle_reads :
      (tx : Transaction) (logs : List String)
      → count_reads k (detect_oracle_reads tx logs) ≤ (if is_oracle_program k then 0 else 1)
  unfolding detect_oracle_reads
  count_reads-detect_oracle_reads tx logs =
      let h = found_reads-IsCounted tx logs in ground (arith, h.once, h.no_program)

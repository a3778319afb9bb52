-- ===== src/Checkers/Oracle/Deviation.antt =====
-- What the oracle checker never misses, also where it skips a pair as checked before.
use ciel_sol.Base.{
  ℕ, zero, suc, ◌≡◌, refl, Bool, true, Option, none, some, List, [], ◌∷◌, ◌++◌, any, any-append,
  ◌||◌, get_elem?, arith, ◌∙◌, sym, subst,
}
use ciel_sol.Checkers.Json.{Pubkey}
use ciel_sol.Checkers.Types.{critical, Flag, OracleRead}
use ciel_sol.Checkers.Results.{CheckerContext}
use ciel_sol.Checkers.Oracle.{F64Ops, OraclePrice, OracleCache, get}
use ciel_sol.Checkers.Oracle.Feeds.{cross_reference}
use ciel_sol.Checkers.Oracle.Check.{
  OracleSanityChecker, pair_of, has_pair, deviates, cross_check, check_read, scan_reads, check,
  stale_flags, wide_flags,
}
use ciel_sol.Checkers.Oracle.Pairs.{
  is_deviation, max_flag-critical, read_not_empty, IsFloat, IsDeviant, flags_of, pairs_of,
  cross_check-flags, some_inj, crossed_or_flagged,
}

module _ {F : Type 0} (ops : F64Ops F) (c : OracleSanityChecker F) (cache : OracleCache F) where
  -- The same of one turn of the loop.
  turn :
      (h : IsFloat ops) (checked : List (Pubkey × Pubkey)) (k cross : Pubkey)
      (price other : OraclePrice F) (read : OracleRead) (o : Option (OraclePrice F))
      → IsDeviant ops c cache k cross price other
      → get cache read.oracle_pubkey ≡ o
      → has_pair (check_read ops c cache checked read o).1 (pair_of k cross) ≡ true
      → (has_pair checked (pair_of k cross)
          || any is_deviation (check_read ops c cache checked read o).0)
        ≡ true
  turn h checked k cross price other read none d g e = rw e refl
  turn h checked k cross price other read (some x) d g e = ground (
    arith,
    any-append is_deviation (stale_flags ops c cache read.oracle_pubkey x) (
        wide_flags ops c cache read.oracle_pubkey x
        ++ (cross_check ops c cache checked read.oracle_pubkey x
            (cross_reference c.feed_map read.oracle_pubkey)).0),
    any-append is_deviation (wide_flags ops c cache read.oracle_pubkey x)
        (cross_check ops c cache checked read.oracle_pubkey x
          (cross_reference c.feed_map read.oracle_pubkey)).0,
    crossed_or_flagged ops c cache h checked k cross read.oracle_pubkey price other x
        (cross_reference c.feed_map read.oracle_pubkey) d g e,
  )

  or_third :
      (b : Bool) (xs ys zs : List Flag)
      → (b || any is_deviation zs) ≡ true
      → (b || any is_deviation (xs ++ (ys ++ zs))) ≡ true
  or_third b xs ys zs h =
      ground (arith, any-append is_deviation xs (ys ++ zs), any-append is_deviation ys zs)

  -- A deviant read is flagged in its turn unless its pair was checked.
  own_turn :
      (checked : List (Pubkey × Pubkey)) (cross : Pubkey) (price other : OraclePrice F)
      (read : OracleRead) (o : Option (OraclePrice F))
      → IsDeviant ops c cache read.oracle_pubkey cross price other
      → get cache read.oracle_pubkey ≡ o
      → (has_pair checked (pair_of read.oracle_pubkey cross)
          || any is_deviation (check_read ops c cache checked read o).0)
        ≡ true
  own_turn checked cross price other read none d g = absurd (none_not_some (sym g ∙ d.cached))
    where
      none_not_some : {A : Type 0} {a : A} → none ≡ some a → ⊥
      none_not_some h = cc
  own_turn checked cross price other read (some x) d g =
      let k = read.oracle_pubkey in
      let same = some_inj ops c cache price x (sym d.cached ∙ g) in
      let flags =
        cross_check-flags ops c cache checked k cross x other d.crossed
          (subst (λ y. deviates ops c cache y other ≡ true) same d.apart) in
      or_third (has_pair checked (pair_of k cross)) (stale_flags ops c cache k x)
        (wide_flags ops c cache k x)
        (cross_check ops c cache checked k x (cross_reference c.feed_map k)).0
        (subst
          (λ r.
            (has_pair checked (pair_of k cross)
              || any is_deviation (cross_check ops c cache checked k x r).0)
            ≡ true)
          (sym d.referenced) flags)

  scan-flags :
      (h : IsFloat ops) (checked : List (Pubkey × Pubkey)) (reads : List OracleRead) (i : ℕ)
      (read : OracleRead) (cross : Pubkey) (price other : OraclePrice F)
      → get_elem? reads i ≡ some read
      → IsDeviant ops c cache read.oracle_pubkey cross price other
      → (has_pair checked (pair_of read.oracle_pubkey cross)
          || any is_deviation (scan_reads ops c cache checked reads))
        ≡ true
  unfolding scan_reads
  scan-flags h checked [] i read cross price other e d = cc
  scan-flags h checked (r ∷ reads) zero read cross price other e d =
      let q : r ≡ read = cc in
      let own = own_turn checked cross price other read (get cache read.oracle_pubkey) d refl in
      rw q (
        ground (
          arith,
          own,
          any-append is_deviation (flags_of ops c cache checked read)
              (scan_reads ops c cache (pairs_of ops c cache checked read) reads),
        ))
  scan-flags h checked (r ∷ reads) (suc i) read cross price other e d =
      let ih = scan-flags h (pairs_of ops c cache checked r) reads i read cross price other e d in
      let now =
        turn h checked read.oracle_pubkey cross price other r (get cache r.oracle_pubkey) d refl in
      ground (
        arith,
        ih,
        now,
        any-append is_deviation (flags_of ops c cache checked r)
            (scan_reads ops c cache (pairs_of ops c cache checked r) reads),
      )

  -- Where f64 subtracts and compares symmetrically, a transaction that reads a feed makes the
  -- output Critical if the feed and its cross reference are cached, the greater of their two
  -- confidences is positive, and the distance of their prices divided by that confidence exceeds
  -- the threshold; whether or not the other feed of the pair is read too.
  pub deviation-critical :
      (h : IsFloat ops) (ctx : CheckerContext) (i : ℕ) (read : OracleRead) (cross : Pubkey)
      (price other : OraclePrice F)
      → get_elem? ctx.trace.oracle_reads i ≡ some read
      → IsDeviant ops c cache read.oracle_pubkey cross price other
      → (check ops c cache ctx).severity ≡ critical
  unfolding check
  deviation-critical h ctx i read cross price other e d =
      rw (read_not_empty ctx.trace.oracle_reads i read e) (
        max_flag-critical (scan_reads ops c cache [] ctx.trace.oracle_reads)
          (scan-flags h [] ctx.trace.oracle_reads i read cross price other e d))

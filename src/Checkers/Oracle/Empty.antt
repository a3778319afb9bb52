-- ===== src/Checkers/Oracle/Empty.antt =====
-- The oracle checker on an empty cache, which is the one that the pipeline gives it
-- (`OracleCache::default()`).
use ciel_sol.Base.{
  ◌≡◌, refl, Bool, Bool-cases, not, List, [], ◌∷◌, any, is_empty, arith, inl, inr, if◌then◌else◌,
}
use ciel_sol.Base.Assoc.{find}
use ciel_sol.Base.Int.{pos}
use ciel_sol.Checkers.Json.{Pubkey}
use ciel_sol.Checkers.Types.{Severity, high, OracleRead}
use ciel_sol.Checkers.Results.{CheckerContext}
use ciel_sol.Checkers.Oracle.{F64Ops, OracleCache}
use ciel_sol.Checkers.Oracle.Feeds.{is_known}
use ciel_sol.Checkers.Oracle.Check.{OracleSanityChecker, scan_reads, max_flag, check}

abbrev pub default_cache : {F : Type 0} → OracleCache F
default_cache = record { prices = []; reference_timestamp = pos 0 }

module _ {F : Type 0} (ops : F64Ops F) (c : OracleSanityChecker F) where
  abbrev pub is_unknown : OracleRead → Bool
  is_unknown read = not (is_known c.feed_map read.oracle_pubkey)

  scan_reads-empty :
      (checked : List (Pubkey × Pubkey)) (reads : List OracleRead)
      → (is_empty (scan_reads ops c default_cache checked reads) ≡ not (any is_unknown reads))
        × (max_flag (scan_reads ops c default_cache checked reads)
            ≡ (if any is_unknown reads then high else Severity.none))
  unfolding scan_reads max_flag find
  scan_reads-empty checked [] = (refl, refl)
  scan_reads-empty checked (read ∷ reads) =
      elim (Bool-cases (is_known c.feed_map read.oracle_pubkey)) [
        | inl k ↦ rw k (scan_reads-empty checked reads)
        | inr k ↦ rw k (refl, rw (scan_reads-empty checked reads).1 (ground arith))
      ]

  -- On the cache that the pipeline gives it, the oracle checker passes exactly if each read is of a
  -- known feed, and otherwise reports High: no price is compared, found stale or found wide.
  pub check-empty :
      (ctx : CheckerContext)
      → ((check ops c default_cache ctx).passed ≡ not (any is_unknown ctx.trace.oracle_reads))
        × ((check ops c default_cache ctx).severity
            ≡ (if any is_unknown ctx.trace.oracle_reads then high else Severity.none))
  unfolding check
  check-empty ctx = on_reads ctx ctx.trace.oracle_reads refl
    where
      on_reads :
          (ctx : CheckerContext) (reads : List OracleRead)
          → ctx.trace.oracle_reads ≡ reads
          → ((check ops c default_cache ctx).passed ≡ not (any is_unknown reads))
            × ((check ops c default_cache ctx).severity
                ≡ (if any is_unknown reads then high else Severity.none))
      on_reads ctx [] h = rw h (refl, refl)
      on_reads ctx (read ∷ reads) h = rw h (scan_reads-empty [] (read ∷ reads))

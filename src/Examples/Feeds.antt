-- ===== src/Examples/Feeds.antt =====
-- The oracle checker and the capture of outcomes.
use ciel_sol.Base.{
  ℕ, ◌+◌, ◌-◌, ◌*◌, ◌/◌, ◌≡◌, refl, false, none, some, List, [], ◌∷◌, inr, arith, ltb,
  if◌then◌else◌, replicate, not, any,
}
use ciel_sol.Base.Int.{ℤ, pos, negsuc}
use ciel_sol.Base.Assoc.{find, put}
use ciel_sol.Checkers.Json.{number}
use ciel_sol.Checkers.Types.{Severity, high, critical, OracleRead}
use ciel_sol.Checkers.Results.{CheckerContext}
use ciel_sol.Checkers.Oracle.{
  F64Ops, OracleType, switchboard, pyth, OraclePrice, OracleCache, with_reference_timestamp, insert,
}
use ciel_sol.Checkers.Oracle.Feeds.{empty, register, cross_reference, put_asset, find_asset}
use ciel_sol.Checkers.Oracle.Check.{OracleSanityChecker, check}
use ciel_sol.Checkers.Oracle.Mainnet.{default_mainnet, register_all}
use ciel_sol.Checkers.Oracle.Pairs.{IsFloat, IsDeviant}
use ciel_sol.Checkers.Oracle.Deviation.{deviation-critical}
use ciel_sol.Checkers.Oracle.Empty.{default_cache, is_unknown, check-empty}
use ciel_sol.Pipeline.Capture.{Row, Services, default_capture, capture_cycle}
use ciel_sol.Pipeline.Capture.Safety.{IsUnique, AreKept, capture_cycle-AreKept}
use ciel_sol.Examples.Data.{trace_of, context}

abbrev of_int : ℤ → ℕ
of_int (pos n) = n
of_int (negsuc n) = 0

-- Whole numbers with the distance as their difference.
abbrev ops : F64Ops ℕ
ops = record {
  of_int = of_int;
  powi_10 = λ n. 1;
  mul = λ a b. a * b;
  div = λ a b. a / b;
  sub = λ a b. (a - b) + (b - a);
  abs = λ a. a;
  max = λ a b. if ltb a b then b else a;
  gt = λ a b. ltb b a;
  show = λ n a. "";
  json = λ a. number a;
}

ops-IsFloat : IsFloat ops
ops-IsFloat = record { distance_comm = λ a b. omega arith; max_comm = λ a b h. ground arith }

abbrev price : OracleType → ℕ → OraclePrice ℕ
price t n = record {
  oracle_type = t;
  price = n;
  confidence = 2;
  timestamp = pos 95;
  asset = "SOL/USD";
}

abbrev checker : OracleSanityChecker ℕ
checker = record {
  sigma_threshold = 3;
  staleness_threshold_secs = pos 30;
  wide_confidence_ratio = 1;
  feed_map = register empty "SOL/USD" 1 2;
}

-- Two feeds that report 100 and 150.
abbrev cache : OracleCache ℕ
cache =
    insert (insert (with_reference_timestamp (pos 100)) 1 (price switchboard 100)) 2
      (price pyth 150)

abbrev read : OracleRead
read = record { oracle_pubkey = 2; oracle_type = "pyth" }

abbrev reading : CheckerContext
reading = record context { trace = record (trace_of [] []) { oracle_reads = read ∷ [] } }

is_deviant : IsDeviant ops checker cache 2 1 (price pyth 150) (price switchboard 100)
unfolding cross_reference register put_asset find_asset insert with_reference_timestamp find put
is_deviant = record { cached = refl; referenced = refl; crossed = refl; apart = refl }

deviation-critical_example : (check ops checker cache reading).severity ≡ critical
deviation-critical_example =
    deviation-critical ops checker cache ops-IsFloat reading 0 read 1 (price pyth 150)
      (price switchboard 100) refl is_deviant

-- The JUP feed of `default_mainnet` is its own cross reference.
jup_alone :
    cross_reference default_mainnet
      0x0a0408d619e9380abad35060f9192039ed5042fa6f82301d0e48bb52be830996
    ≡ some 0x0a0408d619e9380abad35060f9192039ed5042fa6f82301d0e48bb52be830996
unfolding default_mainnet register_all cross_reference register put_asset find_asset find put
jup_alone = refl

-- An approved row that waits, and one whose outcome is known.
abbrev rows : List Row
rows =
    record {
      id = 1;
      verdict = "APPROVE";
      tx_signature = some (replicate 64 7);
      execution_outcome = none;
      execution_slot = none;
      created_at = 100;
    }
    ∷ record {
      id = 2;
      verdict = "APPROVE";
      tx_signature = some (replicate 64 8);
      execution_outcome = some "landed";
      execution_slot = some (pos 9);
      created_at = 50;
    }
    ∷ []

abbrev services : Services
services = record {
  get_status = λ s. inr (some (record { slot = 12; failed = false }));
  fetch_failure = none;
  update_failure = λ id. none;
}

rows-IsUnique : IsUnique rows
rows-IsUnique = ((refl, tt), (tt, tt))

capture_cycle-AreKept_example : AreKept rows (capture_cycle services default_capture 200 rows).1
capture_cycle-AreKept_example =
    capture_cycle-AreKept services default_capture 200 rows rows-IsUnique

-- The same read on the cache that the pipeline passes.
check-empty_example :
    ((check ops checker default_cache reading).passed
      ≡ not (any (is_unknown ops checker) reading.trace.oracle_reads))
    × ((check ops checker default_cache reading).severity
        ≡ (if any (is_unknown ops checker) reading.trace.oracle_reads then high else Severity.none))
check-empty_example = check-empty ops checker reading

-- ===== src/Checkers/Oracle/Check.antt =====
-- crates/ciel-checkers/src/oracle_sanity.rs. The cache, which the context carries in the program,
-- is an argument of its own.
use ciel_sol.Base.{
  Bool, true, Option, none, some, List, [], ◌∷◌, ◌++◌, String, ltb, if◌then◌else◌, length, is_empty,
  any, ◌==◌, ◌&&◌, str_eq,
}
use ciel_sol.Base.Int.{ℤ, pos, ◌-ℤ◌, ltb_ℤ}
use ciel_sol.Checkers.Json.{Pubkey, lit, num, int, key, integer, str, key_text, Fields}
use ciel_sol.Checkers.Types.{Severity, low, medium, high, critical, Flag, CheckerOutput, OracleRead}
use ciel_sol.Checkers.Results.{CheckerContext}
use ciel_sol.Checkers.Authority.Severity.{max_severity}
use ciel_sol.Checkers.Oracle.{F64Ops, OracleType, switchboard, pyth, OraclePrice, OracleCache, get}
use ciel_sol.Checkers.Oracle.Feeds.{CanonicalFeedMap, is_known, cross_reference}
use ciel_sol.Fork.Executor.Changes.{wrap_i64}

abbrev pub flag_deviation : String
flag_deviation = "ORACLE_DEVIATION_3_SIGMA"

abbrev pub flag_unknown : String
flag_unknown = "UNKNOWN_ORACLE_ACCOUNT"

abbrev pub flag_stale : String
flag_stale = "STALE_ORACLE_FEED"

abbrev pub flag_wide_conf : String
flag_wide_conf = "WIDE_CONFIDENCE_INTERVAL"

pub record OracleSanityChecker (F : Type 0) : Type 0 where
  pub sigma_threshold : F
  pub staleness_threshold_secs : ℤ
  pub wide_confidence_ratio : F
  pub feed_map : CanonicalFeedMap

module _ {F : Type 0} where
  unfoldable pub with_sigma_threshold : F → OracleSanityChecker F → OracleSanityChecker F
  with_sigma_threshold threshold c = record c { sigma_threshold = threshold }

  unfoldable pub with_staleness_threshold : ℤ → OracleSanityChecker F → OracleSanityChecker F
  with_staleness_threshold secs c = record c { staleness_threshold_secs = secs }

  unfoldable pub with_wide_confidence_ratio : F → OracleSanityChecker F → OracleSanityChecker F
  with_wide_confidence_ratio ratio c = record c { wide_confidence_ratio = ratio }

abbrev pub flag_severity : String → Severity
flag_severity code =
    if str_eq code flag_deviation
    then critical
    else if str_eq code flag_unknown
    then high
    else if str_eq code flag_stale
    then high
    else if str_eq code flag_wide_conf
    then medium
    else low

-- `flags.iter().map(|f| flag_severity(&f.code)).max().unwrap_or(Severity::None)`
unfoldable pub max_flag : List Flag → Severity
max_flag [] = Severity.none
max_flag (f ∷ fs) = max_severity (flag_severity f.code) (max_flag fs)

abbrev pub format_oracle_type : OracleType → String
format_oracle_type switchboard = "Switchboard"
format_oracle_type pyth = "Pyth"

-- The pair (min, max) of two keys.
abbrev pub pair_of : Pubkey → Pubkey → Pubkey × Pubkey
pair_of a b = if ltb a b then (a, b) else (b, a)

abbrev pub has_pair : List (Pubkey × Pubkey) → Pubkey × Pubkey → Bool
has_pair checked p = any (λ q. q.0 == p.0 && q.1 == p.1) checked

module _ {F : Type 0} (ops : F64Ops F) where
  -- `0.0`
  abbrev pub zero_f64 : F
  zero_f64 = ops.of_int (pos 0)

  -- 0.05 is the quotient of 5 and 100, both rounded to the nearest `f64`.
  unfoldable pub new : CanonicalFeedMap → OracleSanityChecker F
  new feed_map = record {
    sigma_threshold = ops.of_int (pos 3);
    staleness_threshold_secs = pos 30;
    wide_confidence_ratio = ops.div (ops.of_int (pos 5)) (ops.of_int (pos 100));
    feed_map = feed_map;
  }

  module _ (c : OracleSanityChecker F) (cache : OracleCache F) where
    abbrev pub unknown_flags : OracleRead → List Flag
    unknown_flags read =
        if is_known c.feed_map read.oracle_pubkey
        then []
        else record {
          code = flag_unknown;
          message =
              lit "Oracle account "
              ∷ key read.oracle_pubkey
              ∷ lit " (type: "
              ∷ lit read.oracle_type
              ∷ lit ") is not a known canonical feed"
              ∷ [];
          fields =
              ("oracle_pubkey", key_text read.oracle_pubkey)
              ∷ ("oracle_type", str read.oracle_type)
              ∷ [];
        }
          ∷ []

    -- Step 2; the subtraction wraps, as it does in a release build.
    abbrev pub age_of : OraclePrice F → ℤ
    age_of price = wrap_i64 (cache.reference_timestamp -ℤ price.timestamp)

    abbrev pub stale_flags : Pubkey → OraclePrice F → List Flag
    stale_flags pubkey price =
        if ltb_ℤ c.staleness_threshold_secs (age_of price)
        then record {
          code = flag_stale;
          message =
              lit (format_oracle_type price.oracle_type)
              ∷ lit " feed for "
              ∷ lit price.asset
              ∷ lit " is stale (age: "
              ∷ int (age_of price)
              ∷ lit "s, threshold: "
              ∷ int c.staleness_threshold_secs
              ∷ lit "s)"
              ∷ [];
          fields =
              ("oracle_pubkey", key_text pubkey)
              ∷ ("oracle_type", str (format_oracle_type price.oracle_type))
              ∷ ("asset", str price.asset)
              ∷ ("age_seconds", integer (age_of price))
              ∷ ("threshold_seconds", integer c.staleness_threshold_secs)
              ∷ [];
        }
          ∷ []
        else []

    -- Step 3.
    abbrev pub wide_flags : Pubkey → OraclePrice F → List Flag
    wide_flags pubkey price =
        let ratio = ops.div price.confidence price.price in
        if ops.gt price.price zero_f64 && ops.gt ratio c.wide_confidence_ratio
        then record {
          code = flag_wide_conf;
          message =
              lit (format_oracle_type price.oracle_type)
              ∷ lit " feed for "
              ∷ lit price.asset
              ∷ lit " has abnormally wide confidence ("
              ∷ lit (ops.show 2 (ops.mul ratio (ops.of_int (pos 100))))
              ∷ lit "% of price)"
              ∷ [];
          fields =
              ("oracle_pubkey", key_text pubkey)
              ∷ ("oracle_type", str (format_oracle_type price.oracle_type))
              ∷ ("asset", str price.asset)
              ∷ ("confidence", ops.json price.confidence)
              ∷ ("price", ops.json price.price)
              ∷ ("ratio", ops.json ratio)
              ∷ [];
        }
          ∷ []
        else []

    abbrev pub sigma_of : OraclePrice F → OraclePrice F → F
    sigma_of price other =
        ops.div (ops.abs (ops.sub price.price other.price))
          (ops.max price.confidence other.confidence)

    abbrev pub deviates : OraclePrice F → OraclePrice F → Bool
    deviates price other =
        ops.gt (ops.max price.confidence other.confidence) zero_f64
        && ops.gt (sigma_of price other) c.sigma_threshold

    abbrev deviation_fields : F → String → OraclePrice F → OraclePrice F → Fields
    deviation_fields sigma asset sb py =
        ("asset", str asset)
        ∷ ("switchboard_price", ops.json sb.price)
        ∷ ("pyth_price", ops.json py.price)
        ∷ ("deviation_sigma", ops.json sigma)
        ∷ ("switchboard_std_dev", ops.json sb.confidence)
        ∷ ("pyth_confidence", ops.json py.confidence)
        ∷ []

    abbrev ordered_fields : OracleType → F → OraclePrice F → OraclePrice F → Fields
    ordered_fields switchboard sigma price other = deviation_fields sigma price.asset price other
    ordered_fields pyth sigma price other = deviation_fields sigma price.asset other price

    abbrev pub cross_flags : OraclePrice F → Option (OraclePrice F) → List Flag
    cross_flags price none = []
    cross_flags price (some other) =
        if deviates price other
        then record {
          code = flag_deviation;
          message =
              lit price.asset
              ∷ lit " price deviation "
              ∷ lit (ops.show 1 (sigma_of price other))
              ∷ lit " sigma between Switchboard and Pyth"
              ∷ [];
          fields = ordered_fields price.oracle_type (sigma_of price other) price other;
        }
          ∷ []
        else []

    -- Step 4, with the pairs checked before; the pairs checked after it come second.
    abbrev pub cross_check :
        List (Pubkey × Pubkey)
        → Pubkey
        → OraclePrice F
        → Option Pubkey
        → List Flag × List (Pubkey × Pubkey)
    cross_check checked pubkey price none = ([], checked)
    cross_check checked pubkey price (some cross) =
        if has_pair checked (pair_of pubkey cross)
        then ([], checked)
        else (cross_flags price (get cache cross), pair_of pubkey cross ∷ checked)

    -- One turn of the loop.
    abbrev pub check_read :
        List (Pubkey × Pubkey)
        → OracleRead
        → Option (OraclePrice F)
        → List Flag × List (Pubkey × Pubkey)
    check_read checked read none = (unknown_flags read, checked)
    check_read checked read (some price) =
        let pubkey = read.oracle_pubkey in
        let crossed = cross_check checked pubkey price (cross_reference c.feed_map pubkey) in
        (stale_flags pubkey price ++ (wide_flags pubkey price ++ crossed.0), crossed.1)

    unfoldable pub scan_reads : List (Pubkey × Pubkey) → List OracleRead → List Flag
    scan_reads checked [] = []
    scan_reads checked (read ∷ reads) =
        (check_read checked read (get cache read.oracle_pubkey)).0
        ++ scan_reads (check_read checked read (get cache read.oracle_pubkey)).1 reads

    unfoldable pub check : CheckerContext → CheckerOutput
    unfolding scan_reads max_flag
    check ctx =
        if is_empty ctx.trace.oracle_reads
        then record {
          checker_name = "oracle_sanity";
          passed = true;
          severity = Severity.none;
          flags = [];
          details = lit "No oracle reads in transaction" ∷ [];
        }
        else let flags = scan_reads [] ctx.trace.oracle_reads in
          record {
            checker_name = "oracle_sanity";
            passed = is_empty flags;
            severity = max_flag flags;
            flags = flags;
            details =
                if is_empty flags
                then lit "All oracle reads passed sanity checks" ∷ []
                else num (length flags) ∷ lit " oracle anomalies detected" ∷ [];
          }

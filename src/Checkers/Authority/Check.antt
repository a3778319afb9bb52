-- ===== src/Checkers/Authority/Check.antt =====
-- `AuthorityDiffChecker::check` of authority_diff.rs.
use ciel_sol.Base.{
  ℕ, Bool, true, false, Option, none, some, List, [], ◌∷◌, String, if◌then◌else◌, length, is_empty,
  is_some, map,
}
use ciel_sol.Base.Int.{pos, negsuc}
use ciel_sol.Checkers.Json.{
  Piece, lit, num, Json, null, bool, number, str, Fields, get, insert, remove,
}
use ciel_sol.Checkers.Types.{
  Severity, low, high, critical, severity_u8, Flag, CheckerOutput, CpiCall, Intent,
}
use ciel_sol.Checkers.Registry.{ProgramRegistry}
use ciel_sol.Checkers.Results.{CheckerContext}
use ciel_sol.Checkers.Authority.Severity.{
  shift_severity, shift_severity_with_floor, modulate_by_stack_height, recover_severity,
  max_severity,
}
use ciel_sol.Checkers.Authority.Keywords.{intent_acknowledges}
use ciel_sol.Checkers.Authority.Match.{
  match_call, flag_severity, lookup_known_protocol_in_call, has_durable_nonce_precursor,
}

abbrev pub none_detected : List Piece
none_detected = lit "No authority-change instructions detected" ∷ []

-- The severity of a matched call, before the intent is read.
unfoldable pub call_severity : ProgramRegistry → Bool → CpiCall → String → Severity
call_severity registry durable call code =
    let base = flag_severity code in
    let sev = if is_some (lookup_known_protocol_in_call call registry) then critical else base in
    let sev' = modulate_by_stack_height sev call.stack_height in
    if durable then shift_severity sev' (pos 1) else sev'

abbrev pub insert_name : Option String → Fields → Fields
insert_name none m = m
insert_name (some name) m = insert m "known_protocol_name" (str name)

-- The fields of a matched call's flag, with the scratch field.
unfoldable pub annotate : ProgramRegistry → Bool → CpiCall → Flag → Flag
annotate registry durable call flag =
    let named = insert_name (lookup_known_protocol_in_call call registry) flag.fields in
    let marked = if durable then insert named "durable_nonce_precursor" (bool true) else named in
    record flag {
      fields =
          insert marked "computed_severity"
            (number (severity_u8 (call_severity registry durable call flag.code)));
    }

-- `for call in cpi_graph`
unfoldable pub scan : ProgramRegistry → Bool → List CpiCall → List Flag
unfolding annotate
scan registry durable [] = []
scan registry durable (call ∷ calls) =
    let rest = scan registry durable calls in
    elim (match_call call registry) [
      | none ↦ rest
      | some flag ↦ annotate registry durable call flag ∷ rest
    ]

abbrev pub is_not_null : Option Json → Bool
is_not_null none = false
is_not_null (some null) = false
is_not_null (some _) = true

abbrev pub ack_floor : Bool → Severity
ack_floor known = if known then high else low

-- The intent pass on one flag that the intent acknowledges.
unfoldable pub downgrade : Flag → Flag
downgrade flag =
    let has_known_protocol = is_not_null (get flag.fields "known_protocol_name") in
    let cur = recover_severity flag.fields in
    let downgraded = shift_severity_with_floor cur (negsuc 0) (ack_floor has_known_protocol) in
    record flag {
      fields =
          insert (insert flag.fields "computed_severity" (number (severity_u8 downgraded)))
            "intent_ack" (bool true);
    }

unfoldable pub strip : Flag → Flag
strip flag = record flag { fields = remove flag.fields "computed_severity" }

unfoldable pub max_of : List Flag → Severity
max_of [] = Severity.none
max_of (f ∷ fs) = max_severity (recover_severity f.fields) (max_of fs)

module _ (is_alphanumeric : ℕ → Bool) where
  unfoldable pub acknowledge : Intent → Flag → Flag
  unfolding downgrade
  acknowledge intent flag =
      if intent_acknowledges is_alphanumeric intent flag.code then downgrade flag else flag

  abbrev pub acknowledge_all : Option Intent → List Flag → List Flag
  acknowledge_all none flags = flags
  acknowledge_all (some intent) flags = map (acknowledge intent) flags

  -- The flags with their scratch fields.
  unfoldable pub scored_flags : CheckerContext → List Flag
  scored_flags ctx =
      acknowledge_all ctx.intent
        (scan ctx.known_programs (has_durable_nonce_precursor ctx.original_tx) ctx.trace.cpi_graph)

  unfoldable pub check : CheckerContext → CheckerOutput
  unfolding max_of strip
  check ctx =
      if is_empty ctx.trace.cpi_graph
      then record {
        checker_name = "authority_diff";
        passed = true;
        severity = Severity.none;
        flags = [];
        details = none_detected;
      }
      else let flags = scored_flags ctx in
        let public = map strip flags in
        let passed = is_empty public in
        record {
          checker_name = "authority_diff";
          passed = passed;
          severity = max_of flags;
          flags = public;
          details =
              if passed
              then none_detected
              else num (length public) ∷ lit " authority-change instruction(s) detected" ∷ [];
        }

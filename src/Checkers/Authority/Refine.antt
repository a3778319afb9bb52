-- ===== src/Checkers/Authority/Refine.antt =====
-- The checker against a specification with no scratch field: one severity for each matched call,
-- and their maximum.
use ciel_sol.Base.{
  ℕ, ◌≤◌, ◌≡◌, refl, Bool, true, Option, none, some, List, [], ◌∷◌, String, if◌then◌else◌, is_empty,
  is_some, arith, inl, inr, Option-cases, Bool-cases,
}
use ciel_sol.Base.Int.{negsuc}
use ciel_sol.Checkers.Types.{Severity, low, high, severity_u8, Flag, CpiCall, Intent}
use ciel_sol.Checkers.Registry.{ProgramRegistry}
use ciel_sol.Checkers.Results.{CheckerContext}
use ciel_sol.Checkers.Authority.Severity.{
  shift_severity_with_floor, recover_severity, max_severity, floor-ge,
}
use ciel_sol.Checkers.Authority.Keywords.{intent_acknowledges}
use ciel_sol.Checkers.Authority.Match.{
  match_call, lookup_known_protocol_in_call, has_durable_nonce_precursor,
}
use ciel_sol.Checkers.Authority.Check.{
  call_severity, annotate, scan, downgrade, max_of, acknowledge, acknowledge_all, scored_flags,
  check, ack_floor,
}
use ciel_sol.Checkers.Authority.Laws.{
  match_call-no_name, call_severity-ge_low, call_severity-known, annotate-name, annotate-code,
  recover-annotate, recover-downgrade,
}

abbrev pub max_list : List Severity → Severity
max_list [] = Severity.none
max_list (s ∷ ss) = max_severity s (max_list ss)

-- The flag of a call, if it matches.
abbrev pub matched : ProgramRegistry → CpiCall → Bool
matched registry call = is_some (match_call call registry)

abbrev pub names_protocol : ProgramRegistry → CpiCall → Bool
names_protocol registry call = is_some (lookup_known_protocol_in_call call registry)

recover-downgrade-annotate :
    (registry : ProgramRegistry) (durable : Bool) (call : CpiCall) (flag : Flag)
    → match_call call registry ≡ some flag
    → recover_severity (downgrade (annotate registry durable call flag)).fields
      ≡ shift_severity_with_floor
          (call_severity registry durable call flag.code)
          (negsuc 0)
          (ack_floor (names_protocol registry call))
recover-downgrade-annotate registry durable call flag h = rw (
  recover-downgrade,
  recover-annotate,
  annotate-name registry durable call flag (match_call-no_name call registry flag h),
)

module _ (is_alphanumeric : ℕ → Bool) where
  -- The severity of one matched call, the intent's downgrade included.
  abbrev pub effective : Option Intent → ProgramRegistry → Bool → CpiCall → String → Severity
  effective none registry durable call code = call_severity registry durable call code
  effective (some intent) registry durable call code =
      if intent_acknowledges is_alphanumeric intent code
      then shift_severity_with_floor (call_severity registry durable call code) (negsuc 0)
          (ack_floor (names_protocol registry call))
      else call_severity registry durable call code

  abbrev pub severities : Option Intent → ProgramRegistry → Bool → List CpiCall → List Severity
  severities intent registry durable [] = []
  severities intent registry durable (call ∷ calls) =
      let rest = severities intent registry durable calls in
      elim (match_call call registry) [
        | none ↦ rest
        | some flag ↦ effective intent registry durable call flag.code ∷ rest
      ]

  recover-acknowledge :
      (intent : Intent) (registry : ProgramRegistry) (durable : Bool) (call : CpiCall) (flag : Flag)
      → match_call call registry ≡ some flag
      → recover_severity
          (acknowledge is_alphanumeric intent (annotate registry durable call flag)).fields
        ≡ effective (some intent) registry durable call flag.code
  unfolding acknowledge
  recover-acknowledge intent registry durable call flag h = ground (
    arith,
    annotate-code registry durable call flag,
    recover-annotate registry durable call flag,
    recover-downgrade-annotate registry durable call flag h,
  )

  max_of-acknowledge :
      (intent : Option Intent) (registry : ProgramRegistry) (durable : Bool) (calls : List CpiCall)
      → max_of (acknowledge_all is_alphanumeric intent (scan registry durable calls))
        ≡ max_list (severities intent registry durable calls)
  unfolding max_of scan
  max_of-acknowledge none registry durable [] = refl
  max_of-acknowledge (some intent) registry durable [] = refl
  max_of-acknowledge none registry durable (call ∷ calls) =
      elim (Option-cases (match_call call registry)) [
        | inl n ↦ ground (arith, max_of-acknowledge none registry durable calls)
        | inr (flag, e) ↦ ground (
          arith,
          max_of-acknowledge none registry durable calls,
          recover-annotate registry durable call flag,
        )
      ]
  max_of-acknowledge (some intent) registry durable (call ∷ calls) =
      elim (Option-cases (match_call call registry)) [
        | inl n ↦ ground (arith, max_of-acknowledge (some intent) registry durable calls)
        | inr (flag, e) ↦ ground (
          arith,
          max_of-acknowledge (some intent) registry durable calls,
          recover-acknowledge intent registry durable call flag e,
        )
      ]

  severities-nil :
      (intent : Option Intent) (registry : ProgramRegistry) (durable : Bool) (calls : List CpiCall)
      → is_empty calls ≡ true
      → max_list (severities intent registry durable calls) ≡ Severity.none
  severities-nil intent registry durable [] h = refl
  severities-nil intent registry durable (call ∷ calls) h = cc

  -- The output's severity is the maximum over the matched calls of the severity that the call, the
  -- nonce and the intent give it.
  pub check-severity :
      (ctx : CheckerContext)
      → (check is_alphanumeric ctx).severity
        ≡ max_list (
            severities ctx.intent ctx.known_programs
              (has_durable_nonce_precursor ctx.original_tx)
              ctx.trace.cpi_graph)
  unfolding check scored_flags
  check-severity ctx = elim (Bool-cases (is_empty ctx.trace.cpi_graph)) [
    | inl e ↦ ground (
      arith,
      severities-nil ctx.intent ctx.known_programs (has_durable_nonce_precursor ctx.original_tx)
          ctx.trace.cpi_graph e,
    )
    | inr e ↦ ground (
      arith,
      max_of-acknowledge ctx.intent ctx.known_programs (has_durable_nonce_precursor ctx.original_tx)
          ctx.trace.cpi_graph,
    )
  ]

  pub effective-ge_low :
      (intent : Option Intent) (registry : ProgramRegistry) (durable : Bool) (call : CpiCall)
      (code : String)
      → 1 ≤ severity_u8 (effective intent registry durable call code)
  effective-ge_low none registry durable call code = call_severity-ge_low registry durable call code
  effective-ge_low (some intent) registry durable call code = ground (
    arith,
    call_severity-ge_low registry durable call code,
    floor-ge (call_severity registry durable call code) low (negsuc 0),
    floor-ge (call_severity registry durable call code) high (negsuc 0),
  )

  pub effective-known :
      (intent : Option Intent) (registry : ProgramRegistry) (durable : Bool) (call : CpiCall)
      (code : String)
      → names_protocol registry call ≡ true
      → 3 ≤ severity_u8 (effective intent registry durable call code)
  effective-known none registry durable call code h =
      call_severity-known registry durable call code h
  effective-known (some intent) registry durable call code h = ground (
    arith,
    call_severity-known registry durable call code h,
    floor-ge (call_severity registry durable call code) high (negsuc 0),
  )

-- ===== src/Checkers/Authority/Passed.antt =====
-- When the authority checker passes, and what its flags keep.
use ciel_sol.Base.{
  ℕ, ◌≡◌, refl, Bool, true, false, Option, none, some, List, [], ◌∷◌, if◌then◌else◌, is_empty, map,
  arith, inl, inr, Option-cases, All, ◌↔◌,
}
use ciel_sol.Checkers.Json.{get}
use ciel_sol.Checkers.Types.{Flag, CpiCall, Intent}
use ciel_sol.Checkers.Registry.{ProgramRegistry}
use ciel_sol.Checkers.Results.{CheckerContext}
use ciel_sol.Checkers.Authority.Handoff.{strip-All}
use ciel_sol.Checkers.Authority.Match.{match_call, has_durable_nonce_precursor}
use ciel_sol.Checkers.Authority.Check.{
  scan, strip, acknowledge_all, acknowledge, scored_flags, check,
}
use ciel_sol.Checkers.Authority.Refine.{matched}

is_empty-map : {A B : Type 0} (f : A → B) (xs : List A) → is_empty (map f xs) ≡ is_empty xs
is_empty-map f [] = refl
is_empty-map f (x ∷ xs) = refl

is_empty-acknowledge_all :
    (is_alphanumeric : ℕ → Bool) (intent : Option Intent) (flags : List Flag)
    → is_empty (acknowledge_all is_alphanumeric intent flags) ≡ is_empty flags
is_empty-acknowledge_all is_alphanumeric none flags = refl
is_empty-acknowledge_all is_alphanumeric (some intent) flags =
    is_empty-map (acknowledge is_alphanumeric intent) flags

scan-empty_iff :
    (registry : ProgramRegistry) (durable : Bool) (calls : List CpiCall)
    → (is_empty (scan registry durable calls) ≡ true)
      ↔ All (λ call. matched registry call ≡ false) calls
unfolding scan
scan-empty_iff registry durable [] = (λ h. tt, λ h. refl)
scan-empty_iff registry durable (call ∷ calls) =
    let ih = scan-empty_iff registry durable calls in
    elim (Option-cases (match_call call registry)) [
      | inl n ↦ (λ h. (ground arith, ih.0 (ground arith)), λ h. ground (arith, ih.1 h.1))
      | inr (flag, e) ↦ (λ h. absurd (ground arith), λ h. absurd (ground (arith, h.0)))
    ]

scan-nil :
    (registry : ProgramRegistry) (durable : Bool) (calls : List CpiCall)
    → is_empty calls ≡ true
    → is_empty (scan registry durable calls) ≡ true
unfolding scan
scan-nil registry durable [] h = refl
scan-nil registry durable (call ∷ calls) h = cc

check-flags_empty :
    (is_alphanumeric : ℕ → Bool) (ctx : CheckerContext)
    → (check is_alphanumeric ctx).passed
      ≡ is_empty (
          scan ctx.known_programs (has_durable_nonce_precursor ctx.original_tx) ctx.trace.cpi_graph)
unfolding check scored_flags
check-flags_empty is_alphanumeric ctx =
    let durable = has_durable_nonce_precursor ctx.original_tx in
    let flags = scan ctx.known_programs durable ctx.trace.cpi_graph in
    ground (
      arith,
      scan-nil ctx.known_programs durable ctx.trace.cpi_graph,
      is_empty-map strip (acknowledge_all is_alphanumeric ctx.intent flags),
      is_empty-acknowledge_all is_alphanumeric ctx.intent flags,
    )

strip-All_if :
    (b : Bool) (flags : List Flag)
    → All (λ f. get f.fields "computed_severity" ≡ none) (if b then [] else map strip flags)
strip-All_if true flags = tt
strip-All_if false flags = strip-All flags

check-flags :
    (is_alphanumeric : ℕ → Bool) (ctx : CheckerContext)
    → (check is_alphanumeric ctx).flags
      ≡ (if is_empty ctx.trace.cpi_graph then [] else map strip (scored_flags is_alphanumeric ctx))
unfolding check
check-flags is_alphanumeric ctx = ground arith

-- The checker passes a transaction exactly if no call of it matches, and no flag that it returns
-- still has the scratch field.
pub authority-passed_iff :
    (is_alphanumeric : ℕ → Bool) (ctx : CheckerContext)
    → (((check is_alphanumeric ctx).passed ≡ true)
        ↔ All (λ call. matched ctx.known_programs call ≡ false) ctx.trace.cpi_graph)
      × All (λ f. get f.fields "computed_severity" ≡ none) (check is_alphanumeric ctx).flags
authority-passed_iff is_alphanumeric ctx = (
  rw check-flags_empty (
      scan-empty_iff ctx.known_programs (has_durable_nonce_precursor ctx.original_tx)
        ctx.trace.cpi_graph),
  rw check-flags (strip-All_if (is_empty ctx.trace.cpi_graph) (scored_flags is_alphanumeric ctx)),
)

-- ===== src/Checkers/Approval/Laws.antt =====
-- Which traces the checker lets pass.
use ciel_sol.Base.{
  ℕ, zero, suc, ◌≡◌, refl, true, false, none, some, List, [], ◌∷◌, ◌++◌, arith, ◌⊎◌, ◌≢◌, sym, ◌∙◌,
  subst, inl, inr, ◌↔◌, first, get_elem?, drop, any, is_empty, Option-cases,
}
use ciel_sol.Checkers.Json.{Pubkey}
use ciel_sol.Checkers.Types.{high, CpiCall}
use ciel_sol.Checkers.Registry.{
  ProgramRegistry, is_known_protocol, spl_token_program_id, spl_token_2022_program_id,
}
use ciel_sol.Checkers.Results.{CheckerContext}
use ciel_sol.Checkers.Approval.{
  u64_max, ApproveCandidate, parse_amount_u64_le, approve_fields, unlimited_unknown,
  inspect_approve, is_revoke_of, revoked_after, flag_call, flag_from, check,
}

-- A call of a token program that lets an unknown delegate spend without limit from the source.
pub record UnlimitedApproval (registry : ProgramRegistry) (call : CpiCall)
    (source delegate : Pubkey) : Type 0 where
  pub token_program :
      (call.program_id ≡ spl_token_program_id) ⊎ (call.program_id ≡ spl_token_2022_program_id)
  pub layout :
      (first call.bytes ≡ some 4) × (get_elem? call.accounts 1 ≡ some delegate)
      ⊎ (first call.bytes ≡ some 13) × (get_elem? call.accounts 2 ≡ some delegate)
  pub from : first call.accounts ≡ some source
  pub unlimited : parse_amount_u64_le call.bytes ≡ some u64_max
  pub unknown : is_known_protocol registry delegate ≡ none

-- A candidate is such an approval.
inspect_approve_sound :
    (registry : ProgramRegistry) (call : CpiCall) (c : ApproveCandidate)
    → inspect_approve call registry ≡ some c
    → UnlimitedApproval registry call c.source c.delegate
unfolding inspect_approve approve_fields unlimited_unknown
inspect_approve_sound registry call c h = ground arith

not-candidate :
    (registry : ProgramRegistry) (call : CpiCall) (source delegate : Pubkey)
    → UnlimitedApproval registry call source delegate
    → inspect_approve call registry ≢ none
unfolding inspect_approve approve_fields unlimited_unknown
not-candidate registry call source delegate u h = ground arith

-- The candidate of such an approval has its source.
candidate-source :
    (registry : ProgramRegistry) (call : CpiCall) (source delegate : Pubkey) (c : ApproveCandidate)
    → UnlimitedApproval registry call source delegate
    → inspect_approve call registry ≡ some c
    → c.source ≡ source
candidate-source registry call source delegate c u e =
    cc ((inspect_approve_sound registry call c e).from, u.from)

-- Each unlimited approval of the trace to an unknown delegate is revoked by a later call.
abbrev pub IsRevoked : ProgramRegistry → CpiCall → List CpiCall → Type 0
IsRevoked registry call later =
    (source delegate : Pubkey)
    → UnlimitedApproval registry call source delegate
    → any (is_revoke_of source) later ≡ true

abbrev pub AllRevoked : ProgramRegistry → List CpiCall → Type 0
AllRevoked registry [] = Unit
AllRevoked registry (call ∷ later) = IsRevoked registry call later × AllRevoked registry later

drop-suc :
    {A : Type 0} (n : ℕ) (xs : List A) (x : A) (rest : List A)
    → drop n xs ≡ x ∷ rest
    → drop (suc n) xs ≡ rest
drop-suc zero [] x rest h = cc
drop-suc zero (y ∷ ys) x rest h = cc
drop-suc (suc n) [] x rest h = cc
drop-suc (suc n) (y ∷ ys) x rest h = drop-suc n ys x rest h

is_empty-append :
    {A : Type 0} (xs ys : List A)
    → (is_empty (xs ++ ys) ≡ true) ↔ ((is_empty xs ≡ true) × (is_empty ys ≡ true))
is_empty-append [] ys = ground arith
is_empty-append (x ∷ xs) ys = ground arith

flag_call-none :
    (registry : ProgramRegistry) (graph : List CpiCall) (idx : ℕ) (call : CpiCall)
    → inspect_approve call registry ≡ none
    → is_empty (flag_call registry graph idx call) ≡ true
unfolding flag_call
flag_call-none registry graph idx call e = ground arith

flag_call-some :
    (registry : ProgramRegistry) (graph : List CpiCall) (idx : ℕ) (call : CpiCall)
    (c : ApproveCandidate)
    → inspect_approve call registry ≡ some c
    → is_empty (flag_call registry graph idx call)
      ≡ any (is_revoke_of c.source) (drop (suc idx) graph)
unfolding flag_call revoked_after
flag_call-some registry graph idx call c e = ground arith

flag_call-empty_iff :
    (registry : ProgramRegistry) (graph : List CpiCall) (idx : ℕ) (call : CpiCall)
    (later : List CpiCall)
    → drop (suc idx) graph ≡ later
    → (is_empty (flag_call registry graph idx call) ≡ true) ↔ IsRevoked registry call later
flag_call-empty_iff registry graph idx call later e =
    elim (Option-cases (inspect_approve call registry)) [
      | inl n ↦ (
        λ h s d u. absurd (not-candidate registry call s d u n),
        λ h. flag_call-none registry graph idx call n,
      )
      | inr (c, found) ↦
          let empty = flag_call-some registry graph idx call c found in
          (
            λ h s d u.
                subst (λ x. any (is_revoke_of x) later ≡ true)
                  (candidate-source registry call s d c u found) (rw (← e) (sym empty ∙ h)),
            λ h. empty ∙ rw e (h c.source c.delegate (inspect_approve_sound registry call c found)),
          )
    ]

flag_from-empty_iff :
    (registry : ProgramRegistry) (graph : List CpiCall) (idx : ℕ) (calls : List CpiCall)
    → drop idx graph ≡ calls
    → (is_empty (flag_from registry graph idx calls) ≡ true) ↔ AllRevoked registry calls
unfolding flag_from
flag_from-empty_iff registry graph idx [] e = (λ h. tt, λ h. refl)
flag_from-empty_iff registry graph idx (call ∷ rest) e =
    let later = drop-suc idx graph call rest e in
    let here = flag_call-empty_iff registry graph idx call rest later in
    let there = flag_from-empty_iff registry graph (suc idx) rest later in
    let both =
      is_empty-append (flag_call registry graph idx call)
        (flag_from registry graph (suc idx) rest) in
    (λ h. (here.0 (both.0 h).0, there.0 (both.0 h).1), λ h. both.1 (here.1 h.0, there.1 h.1))

-- The checker passes a transaction exactly if each call that lets an unknown delegate spend
-- without limit is followed by a revocation of the same source account; else it reports High.
pub approvals-passed_iff :
    (ctx : CheckerContext)
    → (((check ctx).passed ≡ true) ↔ AllRevoked ctx.known_programs ctx.trace.cpi_graph)
      × (((check ctx).passed ≡ false) ↔ ((check ctx).severity ≡ high))
unfolding check
approvals-passed_iff ctx = (
  flag_from-empty_iff ctx.known_programs ctx.trace.cpi_graph 0 ctx.trace.cpi_graph refl,
  ground arith,
)

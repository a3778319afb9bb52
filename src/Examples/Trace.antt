-- ===== src/Examples/Trace.antt =====
-- The approval and the authority checker.
use ciel_sol.Base.{◌≤◌, ◌≡◌, refl, true, false, if◌then◌else◌, ◌↔◌}
use ciel_sol.Checkers.Types.{severity_u8, high}
use ciel_sol.Checkers.Registry.{is_known_protocol, find, with_mainnet_defaults}
use ciel_sol.Checkers.Approval
use ciel_sol.Checkers.Approval.{parse_amount_u64_le, u64_max}
use ciel_sol.Checkers.Approval.Laws.{AllRevoked, approvals-passed_iff}
use ciel_sol.Checkers.Authority.Match.{
  match_call, match_squads_proxy, match_spl_token, match_bpf_loader, find_target,
  has_durable_nonce_precursor,
}
use ciel_sol.Checkers.Authority.Check
use ciel_sol.Checkers.Authority.Refine.{
  check-severity, matched, names_protocol, max_list, severities,
}
use ciel_sol.Checkers.Authority.Handoff.{check-severity_bounds}
use ciel_sol.Examples.Data.{alphanumeric, context, handoff}

approvals-passed_iff_example :
    (((ciel_sol.Checkers.Approval.check context).passed ≡ true)
      ↔ AllRevoked context.known_programs context.trace.cpi_graph)
    × (((ciel_sol.Checkers.Approval.check context).passed ≡ false)
        ↔ ((ciel_sol.Checkers.Approval.check context).severity ≡ high))
approvals-passed_iff_example = approvals-passed_iff context

check-severity_example :
    (ciel_sol.Checkers.Authority.Check.check alphanumeric context).severity
    ≡ max_list (
        severities alphanumeric context.intent context.known_programs
          (has_durable_nonce_precursor context.original_tx)
          context.trace.cpi_graph)
check-severity_example = check-severity alphanumeric context

handoff-matched : matched context.known_programs handoff ≡ true
unfolding match_call match_squads_proxy match_spl_token match_bpf_loader find_target
    is_known_protocol find with_mainnet_defaults
handoff-matched = refl

check-severity_bounds_example :
    (if names_protocol context.known_programs handoff then 3 else 1)
    ≤ severity_u8 (ciel_sol.Checkers.Authority.Check.check alphanumeric context).severity
check-severity_bounds_example =
    check-severity_bounds alphanumeric context 2 handoff refl handoff-matched

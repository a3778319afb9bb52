-- ===== src/Checkers/Authority/Laws.antt =====
-- The severity of the output, without the scratch field.
use ciel_sol.Base.{
  ◌≤◌, ◌≡◌, refl, Bool, true, false, Option, none, some, String, is_some, arith, ◌∙◌,
}
use ciel_sol.Base.Int.{negsuc}
use ciel_sol.Checkers.Json.{bool, Fields, get, insert, get-insert}
use ciel_sol.Checkers.Types.{critical, severity_u8, Flag, CpiCall}
use ciel_sol.Checkers.Registry.{ProgramRegistry}
use ciel_sol.Checkers.Authority.Severity.{
  shift_severity_with_floor, modulate_by_stack_height, recover_severity, recover-insert,
  modulate-ge_low, modulate-critical, shift_up-ge,
}
use ciel_sol.Checkers.Authority.Match.{
  match_call, match_spl_token, match_bpf_loader, match_squads_proxy, flag_severity,
  lookup_known_protocol_in_call,
}
use ciel_sol.Checkers.Authority.Check.{
  call_severity, annotate, insert_name, downgrade, ack_floor, is_not_null,
}

-- No arm writes the field that tells of a known protocol.
pub match_call-no_name :
    (call : CpiCall) (registry : ProgramRegistry) (flag : Flag)
    → match_call call registry ≡ some flag
    → get flag.fields "known_protocol_name" ≡ none
unfolding match_call match_spl_token match_bpf_loader match_squads_proxy get
match_call-no_name call registry flag h = ground arith

pub flag_severity-ge_low : (code : String) → 1 ≤ severity_u8 (flag_severity code)
unfolding flag_severity
flag_severity-ge_low code = ground arith

pub call_severity-ge_low :
    (registry : ProgramRegistry) (durable : Bool) (call : CpiCall) (code : String)
    → 1 ≤ severity_u8 (call_severity registry durable call code)
unfolding call_severity
call_severity-ge_low registry durable call code = ground (
  arith,
  flag_severity-ge_low code,
  modulate-ge_low critical call.stack_height,
  modulate-ge_low (flag_severity code) call.stack_height,
  shift_up-ge (modulate_by_stack_height critical call.stack_height),
  shift_up-ge (modulate_by_stack_height (flag_severity code) call.stack_height),
)

pub call_severity-known :
    (registry : ProgramRegistry) (durable : Bool) (call : CpiCall) (code : String)
    → is_some (lookup_known_protocol_in_call call registry) ≡ true
    → 3 ≤ severity_u8 (call_severity registry durable call code)
unfolding call_severity
call_severity-known registry durable call code h = ground (
  arith,
  modulate-critical call.stack_height,
  shift_up-ge (modulate_by_stack_height critical call.stack_height),
)

-- What an annotated flag says of the protocol.
is_not_null-insert_name :
    (name : Option String) (m : Fields)
    → get m "known_protocol_name" ≡ none
    → is_not_null (get (insert_name name m) "known_protocol_name") ≡ is_some name
is_not_null-insert_name none m h = rw h
is_not_null-insert_name (some n) m h = rw get-insert refl

pub annotate-name :
    (registry : ProgramRegistry) (durable : Bool) (call : CpiCall) (flag : Flag)
    → get flag.fields "known_protocol_name" ≡ none
    → is_not_null (get (annotate registry durable call flag).fields "known_protocol_name")
      ≡ is_some (lookup_known_protocol_in_call call registry)
unfolding annotate
annotate-name registry true call flag h = rw get-insert (
    rw get-insert
      (is_not_null-insert_name (lookup_known_protocol_in_call call registry) flag.fields h))
annotate-name registry false call flag h =
    rw get-insert
      (is_not_null-insert_name (lookup_known_protocol_in_call call registry) flag.fields h)

pub annotate-code :
    (registry : ProgramRegistry) (durable : Bool) (call : CpiCall) (flag : Flag)
    → (annotate registry durable call flag).code ≡ flag.code
unfolding annotate
annotate-code registry durable call flag = refl

pub recover-annotate :
    (registry : ProgramRegistry) (durable : Bool) (call : CpiCall) (flag : Flag)
    → recover_severity (annotate registry durable call flag).fields
      ≡ call_severity registry durable call flag.code
unfolding annotate
recover-annotate registry durable call flag = recover-insert _ _

recover-insert_ack :
    (m : Fields) → recover_severity (insert m "intent_ack" (bool true)) ≡ recover_severity m
unfolding recover_severity
recover-insert_ack m = rw get-insert refl

pub recover-downgrade :
    (flag : Flag)
    → recover_severity (downgrade flag).fields
      ≡ shift_severity_with_floor
          (recover_severity flag.fields)
          (negsuc 0)
          (ack_floor (is_not_null (get flag.fields "known_protocol_name")))
unfolding downgrade
recover-downgrade flag = recover-insert_ack _ ∙ recover-insert flag.fields _

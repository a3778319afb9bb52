-- ===== src/Pipeline/Capture.antt =====
-- crates/ciel-pipeline/src/outcome.rs: the capture of outcomes. The table `verdict_log` is a list
-- of rows in the order of the scan that breaks ties, a time is in nanoseconds, and the answers of
-- the RPC provider and the failures of the database are arguments.
pub mod Safety
use ciel_sol.Base.{
  ℕ, zero, suc, ◌-◌, ◌*◌, ◌==◌, Bool, true, false, not, ◌&&◌, Option, none, some, List, [], ◌∷◌,
  String, str_eq, ltb, leb, if◌then◌else◌, length, take, is_empty, ◌⊎◌, inl, inr, is_some,
}
use ciel_sol.Base.Int.{ℤ}
use ciel_sol.Checkers.Oracle.{to_signed}

pub record OutcomeCaptureConfig : Type 0 where
  pub ttl : ℕ
  pub poll_interval : ℕ
  pub batch_size : ℕ

abbrev pub default_capture : OutcomeCaptureConfig
default_capture = record { ttl = 60 * 1000000000; poll_interval = 5 * 1000000000; batch_size = 50 }

pub data OutcomeError : Type 0 where
  database : String → OutcomeError
  rpc_error : String → OutcomeError
  invalid_signature : (id : ℕ) → OutcomeError

abbrev pub landed : String
landed = "landed"

abbrev pub reverted : String
reverted = "reverted"

abbrev pub expired : String
expired = "expired"

-- The columns of `verdict_log` that the capture reads or writes.
pub record Row : Type 0 where
  pub id : ℕ
  pub verdict : String
  pub tx_signature : Option (List ℕ)
  pub execution_outcome : Option String
  pub execution_slot : Option ℤ
  pub created_at : ℕ

pub record PendingVerdict : Type 0 where
  pub id : ℕ
  pub tx_signature : List ℕ
  pub created_at : ℕ

-- A row under the conditions of the query.
abbrev pub is_pending : Row → Bool
is_pending r =
    str_eq r.verdict "APPROVE" && (not (is_some r.execution_outcome) && is_some r.tx_signature)

abbrev pending_of : Row → Option (List ℕ) → List PendingVerdict
pending_of r none = []
pending_of r (some signature) =
    record { id = r.id; tx_signature = signature; created_at = r.created_at } ∷ []

-- `ORDER BY created_at ASC`
unfoldable pub insert_by_time : PendingVerdict → List PendingVerdict → List PendingVerdict
insert_by_time p [] = p ∷ []
insert_by_time p (q ∷ qs) =
    if leb p.created_at q.created_at then p ∷ q ∷ qs else q ∷ insert_by_time p qs

abbrev insert_all : List PendingVerdict → List PendingVerdict → List PendingVerdict
insert_all [] qs = qs
insert_all (p ∷ ps) qs = insert_by_time p (insert_all ps qs)

unfoldable pub pending_rows : List Row → List PendingVerdict
unfolding insert_by_time
pending_rows [] = []
pending_rows (r ∷ rows) =
    let rest = pending_rows rows in
    if is_pending r then insert_all (pending_of r r.tx_signature) rest else rest

unfoldable pub fetch_pending_verdicts : List Row → ℕ → List PendingVerdict
unfolding pending_rows
fetch_pending_verdicts rows batch_size = take batch_size (pending_rows rows)

-- A status of `getSignatureStatuses`.
pub record Status : Type 0 where
  pub slot : ℕ
  pub failed : Bool

-- What the provider and the database do in one cycle.
pub record Services : Type 0 where
  pub get_status : List ℕ → String ⊎ Option Status
  pub fetch_failure : Option String
  pub update_failure : ℕ → Option String

-- `chrono::Duration::from_std(ttl).unwrap_or(60 s)`, up to 2^63 - 1 milliseconds
abbrev pub ttl_chrono : ℕ → ℕ
ttl_chrono ttl = if leb ttl (9223372036854775807 * 1000000) then ttl else 60 * 1000000000

abbrev pub Decision : Type 0
Decision = Option (String × Option ℤ)

abbrev decided : ℕ → ℕ → PendingVerdict → String ⊎ Option Status → OutcomeError ⊎ Decision
decided now ttl v (inl e) = inl (rpc_error e)
decided now ttl v (inr (some status)) =
    inr (some (if status.failed then reverted else landed, some (to_signed 64 status.slot)))
decided now ttl v (inr none) =
    inr (if ltb (ttl_chrono ttl) (now - v.created_at) then some (expired, none) else none)

unfoldable pub determine_outcome : Services → PendingVerdict → ℕ → ℕ → OutcomeError ⊎ Decision
determine_outcome services v now ttl =
    if length v.tx_signature == 64
    then decided now ttl v (services.get_status v.tx_signature)
    else inl (invalid_signature v.id)

-- `UPDATE verdict_log SET ... WHERE id = $3`
unfoldable pub set_outcome : ℕ → String × Option ℤ → List Row → List Row
set_outcome id o [] = []
set_outcome id o (r ∷ rows) =
    (if r.id == id then record r { execution_outcome = some o.0; execution_slot = o.1 } else r)
    ∷ set_outcome id o rows

abbrev pub updated :
    ℕ → String × Option ℤ → List Row → Option String → Option OutcomeError × List Row
updated id o rows none = (none, set_outcome id o rows)
updated id o rows (some e) = (some (database e), rows)

unfoldable pub update_verdict_outcome :
    Services → ℕ → String × Option ℤ → List Row → Option OutcomeError × List Row
unfolding set_outcome
update_verdict_outcome services id o rows = updated id o rows (services.update_failure id)

-- The match on what was determined: an error other than the update's is only logged.
abbrev pub apply_decision :
    Services → ℕ → List Row → OutcomeError ⊎ Decision → Option OutcomeError × List Row
apply_decision services id rows (inl e) = (none, rows)
apply_decision services id rows (inr none) = (none, rows)
apply_decision services id rows (inr (some o)) = update_verdict_outcome services id o rows

-- The loop over the pending verdicts, which an update that fails ends.
unfoldable pub capture_all :
    Services → ℕ → ℕ → List PendingVerdict → List Row → Option OutcomeError × List Row
unfolding determine_outcome update_verdict_outcome
capture_all services now ttl [] rows = (none, rows)
capture_all services now ttl (v ∷ vs) rows =
    let done = apply_decision services v.id rows (determine_outcome services v now ttl) in
    let rest = capture_all services now ttl vs done.1 in if is_some done.0 then done else rest

abbrev pub cycle_of :
    Services → OutcomeCaptureConfig → ℕ → List Row → Option String → Option OutcomeError × List Row
cycle_of services config now rows none =
    capture_all services now config.ttl (fetch_pending_verdicts rows config.batch_size) rows
cycle_of services config now rows (some e) = (some (database e), rows)

unfoldable pub capture_cycle :
    Services → OutcomeCaptureConfig → ℕ → List Row → Option OutcomeError × List Row
unfolding capture_all fetch_pending_verdicts
capture_cycle services config now rows = cycle_of services config now rows services.fetch_failure

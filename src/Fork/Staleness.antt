-- ===== src/Fork/Staleness.antt =====
-- crates/ciel-fork/src/staleness.rs. Time is a count of nanoseconds, read by the caller.
use ciel_sol.Base.{ℕ, ◌+◌, ◌-◌, ◌*◌, ◌≤◌, ◌≡◌, ltb, if◌then◌else◌, arith, ◌↔◌}

pub data StalenessState : Type 0 where
  fresh warn timeout : StalenessState

pub record StalenessConfig : Type 0 where
  pub warn_threshold : ℕ
  pub timeout_threshold : ℕ

abbrev pub default_config : StalenessConfig
default_config = record { warn_threshold = 3 * 1000000000; timeout_threshold = 10 * 1000000000 }

pub record StalenessTracker : Type 0 where
  pub last_update : ℕ
  pub last_slot : ℕ
  pub config : StalenessConfig

unfoldable pub new : ℕ → StalenessConfig → StalenessTracker
new now config = record { last_update = now; last_slot = 0; config = config }

unfoldable pub record_update : StalenessTracker → ℕ → ℕ → StalenessTracker
record_update t now slot = record t { last_update = now; last_slot = slot }

unfoldable pub time_since_last_update : StalenessTracker → ℕ → ℕ
time_since_last_update t now = now - t.last_update

unfoldable pub state : StalenessTracker → ℕ → StalenessState
unfolding time_since_last_update
state t now =
    let elapsed = time_since_last_update t now in
    if ltb t.config.timeout_threshold elapsed
    then timeout
    else if ltb t.config.warn_threshold elapsed
    then warn
    else fresh

abbrev pub rank : StalenessState → ℕ
rank fresh = 0
rank warn = 1
rank timeout = 2

-- With no update the state only worsens; an update makes it Fresh and stores its slot; and where
-- the warning comes first, Fresh means that the last update is no older than its threshold.
pub state_laws :
    (t : StalenessTracker) (now later slot : ℕ)
    → now ≤ later
    → t.config.warn_threshold ≤ t.config.timeout_threshold
    → (rank (state t now) ≤ rank (state t later))
      × (state (record_update t now slot) now ≡ fresh)
      × ((record_update t now slot).last_slot ≡ slot)
      × ((state t now ≡ fresh) ↔ (now ≤ t.last_update + t.config.warn_threshold))
unfolding state record_update
state_laws t now later slot h k = ground arith

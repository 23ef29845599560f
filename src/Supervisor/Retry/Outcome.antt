-- ===== src/Supervisor/Retry/Outcome.antt =====
-- What `_retry_or_block` of src/ats_lab/supervisor.py leaves of a running item.
use algorithmic_trading_stra.Base.{ℕ, ◌+◌, ◌≤◌, ◌<◌, String, true, false, none, some, ◌≡◌, ◌⊎◌}
use algorithmic_trading_stra.Models.{blocked, waiting_retry}
use algorithmic_trading_stra.Queue.Rows.{WorkRow}
use algorithmic_trading_stra.Base.Json.{Json.obj, Json.bool, Json.str}
use algorithmic_trading_stra.Supervisor.Retry.{is_infrastructure}

-- what becomes of the item
pub record Deferred (item r : WorkRow) (attempts : ℕ) (code : String) : Type 0 where
  pub waits : r.state ≡ waiting_retry
  pub charged : r.attempts ≡ attempts
  pub because : r.blocker_code ≡ some code
  pub scheduled : (time : String) × (r.retry_after ≡ some time)
  pub unclaimed : r.claimed_by ≡ none

pub record Exhausted (item r : WorkRow) : Type 0 where
  pub stopped : r.state ≡ blocked
  pub because : r.blocker_code ≡ some "retry_limit_reached"
  pub unclaimed : r.claimed_by ≡ none

-- An infrastructure failure is deferred free of charge; any other one costs an attempt, until the last
-- one blocks.
abbrev pub Handled : ℕ → WorkRow → String → WorkRow → Type 0
Handled max_attempts item code r =
    ((is_infrastructure code ≡ true) × Deferred item r item.attempts code)
    ⊎ (((is_infrastructure code ≡ false) × (max_attempts ≤ item.attempts + 1) × Exhausted item r)
        ⊎ ((is_infrastructure code ≡ false)
            × (item.attempts + 1 < max_attempts)
            × Deferred item r (item.attempts + 1) code))

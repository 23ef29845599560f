-- ===== src/Control.antt =====
-- The operator's control of the supervisor: `set_control_state` and `control_status` of
-- src/ats_lab/database.py, and `SupervisorLoopControl` of src/ats_lab/loop_control.py. Other processes
-- (`alive`, `launch`) are parameters, constant during one call. A method of several transactions gives
-- the state that it leaves with its result, so that what it committed before an error is kept.
pub mod Replay
pub mod Starts
use algorithmic_trading_stra.Base.{
  ℕ, String, Bool, true, false, not, ◌&&◌, Option, none, some, List, [], ◌∷◌, ◌++◌, str_eq,
  if◌then◌else◌,
}
use algorithmic_trading_stra.Base.Int.{ℤ}
use algorithmic_trading_stra.Base.Json.{Json.obj, Json.str, field, end}
use algorithmic_trading_stra.Base.Texts.{◌<>◌, text_mem}
use algorithmic_trading_stra.Base.Outcome.{
  Error, Result, ok, err, value_error, runtime_error, ◌>>=◌, ◌>>◌, raise_if, or_raise,
}
use algorithmic_trading_stra.Queue.Rows.{Database}
use algorithmic_trading_stra.Queue.Retries.{Delays, repair_relative_retry_schedules}

-- the row of `operator_control`
pub record OperatorControl : Type 0 where
  pub desired_state : String
  pub updated_at : String
  pub updated_by : String

-- the row of `supervisor_runtime`, as far as the control reads it
pub record Runtime : Type 0 where
  pub process_id : ℤ
  pub phase : String

pub record Laboratory : Type 0 where
  pub queue : Database
  pub operator_control : Option OperatorControl
  pub supervisor_runtime : Option Runtime

pub record LoopStatus : Type 0 where
  pub state : String
  pub process_id : Option ℤ
  pub phase : String
  pub control : String
  pub repaired_retry_schedules : ℕ

abbrev pub control_states : List String
control_states = "running" ∷ "paused" ∷ "stop_requested" ∷ []

unfoldable pub is_control_state : String → Bool
is_control_state s = text_mem s control_states

-- the event of a changed control state
abbrev add_control_event : String → String → String → String → Database → Database
add_control_event previous desired updated_by now db = record db {
  events =
      db.events
      ++ record {
        aggregate_type = "supervisor";
        aggregate_id = "control";
        event_type = "control_changed";
        payload = obj (
            field "from" (str previous)
              (field "to" (str desired) (field "updated_by" (str updated_by) end)));
        occurred_at = now;
      }
        ∷ [];
}

-- the UPDATE of the one control row, and its event where the state changes
unfoldable pub stored : String → String → String → OperatorControl → Laboratory → Laboratory
stored desired updated_by now previous lab = record lab {
  operator_control =
      some (record { desired_state = desired; updated_at = now; updated_by = updated_by });
  queue =
      if str_eq previous.desired_state desired
      then lab.queue
      else add_control_event previous.desired_state desired updated_by now lab.queue;
}

unfoldable pub set_control_state : String → String → String → Laboratory → Result Laboratory
set_control_state desired updated_by now lab =
    raise_if (not (is_control_state desired)) (value_error ("invalid control state: " <> desired))
    >> (or_raise lab.operator_control (runtime_error "operator control is not initialized")
        >>= λ previous. ok (stored desired updated_by now previous lab))

unfoldable pub control_status : Laboratory → Result OperatorControl
control_status lab =
    or_raise lab.operator_control (runtime_error "operator control is not initialized")

-- what a failed launch leaves as the desired state
unfoldable pub failure_control : String → String
failure_control previous = if str_eq previous "running" then "paused" else previous

module _ (alive : ℤ → Bool) where
  -- `_runtime`: whether the supervisor that last reported is there
  unfoldable pub is_running : Option Runtime → Bool
  is_running none = false
  is_running (some r) = not (str_eq r.phase "stopped") && alive r.process_id

  abbrev process_of : Option Runtime → Option ℤ
  process_of none = none
  process_of (some r) = some r.process_id

  abbrev phase_of : Bool → Option Runtime → String
  phase_of true (some r) = if str_eq r.phase "" then "not_reported" else r.phase
  phase_of _ _ = "stopped"

  unfoldable pub status : Laboratory → Result LoopStatus
  status lab = control_status lab >>= λ control.
      let running = is_running lab.supervisor_runtime in
      ok (record {
        state = if running then "running" else "stopped";
        process_id = process_of lab.supervisor_runtime;
        phase = phase_of running lab.supervisor_runtime;
        control = control.desired_state;
        repaired_retry_schedules = 0;
      })

  -- `replace(self.status(), state=…)` after a committed change
  abbrev replaced : String → ℕ → Result Laboratory → Laboratory → Laboratory × Result LoopStatus
  replaced state repaired (err e) lab = (lab, err e)
  replaced state repaired (ok lab') lab = (
    lab',
    status lab' >>= λ (current : LoopStatus).
        ok (record current { state = state; repaired_retry_schedules = repaired }),
  )

  unfoldable pub pause : String → Laboratory → Laboratory × Result LoopStatus
  pause now lab = replaced "paused" 0 (set_control_state "paused" "loop:pause" now lab) lab

  unfoldable pub stop : String → Laboratory → Laboratory × Result LoopStatus
  stop now lab =
      replaced "stop_requested" 0 (set_control_state "stop_requested" "loop:stop" now lab) lab

  -- the state that `set_control_state` leaves, and the error that goes on: its own, or the launch's
  abbrev after_failure : Result Laboratory → Error → Laboratory → Laboratory × Result LoopStatus
  after_failure (ok lab') e lab = (lab', err e)
  after_failure (err e') e lab = (lab, err e')

  -- the end of `start`, once the control says "running"
  abbrev launched : Result ℤ → ℕ → String → String → Laboratory → Laboratory × Result LoopStatus
  launched (ok pid) repaired previous now lab = (
    lab,
    ok (record {
      state = "started";
      process_id = some pid;
      phase = "starting";
      control = "running";
      repaired_retry_schedules = repaired;
    }),
  )
  launched (err e) repaired previous now lab =
      after_failure (set_control_state (failure_control previous) "loop:start_failed" now lab) e lab

  -- `start` once the state "running" is asked for
  abbrev proceed :
      Result ℤ
      → ℕ
      → String
      → Bool
      → String
      → Result Laboratory
      → Laboratory
      → Laboratory × Result LoopStatus
  proceed launch repaired now running previous (err e) lab = (lab, err e)
  proceed launch repaired now true previous (ok lab') lab =
      replaced "already_running" repaired (ok lab') lab
  proceed launch repaired now false previous (ok lab') lab =
      launched launch repaired previous now lab'

  -- `start` from the committed repair on
  abbrev started :
      Result ℤ
      → ℕ
      → String
      → Bool
      → Result OperatorControl
      → Laboratory
      → Laboratory × Result LoopStatus
  started launch repaired now running (err e) lab = (lab, err e)
  started launch repaired now running (ok control) lab =
      let previous = if str_eq control.desired_state "" then "paused" else control.desired_state in
      proceed launch repaired now running previous
        (set_control_state "running" "loop:start" now lab) lab

  abbrev after_repair :
      Result ℤ → String → Result (Database × ℕ) → Laboratory → Laboratory × Result LoopStatus
  after_repair launch now (err e) lab = (lab, err e)
  after_repair launch now (ok (queue, repaired)) lab =
      let lab' = record lab { queue = queue } in
      started launch repaired now (is_running lab.supervisor_runtime) (control_status lab') lab'

  unfoldable pub start : Delays → Result ℤ → String → Laboratory → Laboratory × Result LoopStatus
  start delays launch now lab =
      after_repair launch now (repair_relative_retry_schedules delays now lab.queue) lab

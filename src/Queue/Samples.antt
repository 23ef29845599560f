-- ===== src/Queue/Samples.antt =====
-- A small queue on which the theorems about it are run: a finished significance parent, a ready child, and
-- two scheduled items, one of which waits for a parent that is not there.
use algorithmic_trading_stra.Base.{
  ◌⊎◌, true, any, some, ◌+◌, ◌≤◌, String, Bool, false, none, List, [], ◌∷◌, ◌≡◌, refl, All, length,
  max, count,
}
use algorithmic_trading_stra.Base.Int.{pos}
use algorithmic_trading_stra.Base.Json.{Json, Json.obj, Json.str, field, end}
use algorithmic_trading_stra.Base.Outcome.{ok}
use algorithmic_trading_stra.Models.{
  blocked, waiting_retry, is_state, WorkState, scheduled, ready, finished,
}
use algorithmic_trading_stra.Queue.Rows.{item_at, WorkRow, Database, Experiment, is_active}
use algorithmic_trading_stra.Queue.Invariant.{IsValid, Advance}
use algorithmic_trading_stra.Queue.Retries.{Delays, is_due, promote_due_retries}
use algorithmic_trading_stra.Queue.Retries.Due.{promote_due_retries_lem}
use algorithmic_trading_stra.Queue.Transitions.{
  no_reason, transition_work_item, transition_work_item_row,
}
use algorithmic_trading_stra.Queue.Transitions.Target.{Arrived, transition_work_item-Arrived}
use algorithmic_trading_stra.Queue.Claims.{claim_batch}
use algorithmic_trading_stra.Queue.Claims.Batch.{RowByRow, ClaimedFrom, Owned, claim_batch_lem}
use algorithmic_trading_stra.Queue.Dependencies.{fill_capacity, reconcile_scheduled_dependencies}
use algorithmic_trading_stra.Queue.Dependencies.Progress.{Ended, reconcile_ends}
use algorithmic_trading_stra.Queue.Dependencies.Capacity.{fill_capacity-le}
use algorithmic_trading_stra.Queue.Finish.{Projections}
use algorithmic_trading_stra.Queue.Validations.Aligned.{Aligned}
use algorithmic_trading_stra.Queue.Commands.{
  Command, next_claim, batch_claim, reconcile, promote_runnable, run, repair_schedules, run-Advance,
}

abbrev pub item : String → WorkState → List String → Json → WorkRow
item id state dependencies specification = record {
  id = id;
  experiment_id = id;
  priority = pos 10;
  state = state;
  dependencies = dependencies;
  attempts = 0;
  retry_after = none;
  blocker_code = none;
  blocker_detail = none;
  specification = specification;
  claimed_by = none;
  claimed_at = none;
  created_at = "2026-01-01T00:00:00Z";
  updated_at = "2026-01-01T00:00:00Z";
}

abbrev pub experiment : String → String → Experiment
experiment id kind = record { id = id; experiment_type = kind; specification = obj end }

abbrev pub two_days : Database
two_days = record {
  work_items =
      item "S1" finished [] (obj (field "gate_decision" (str "significance_passed") end))
      ∷ item "B1" ready ("S1" ∷ []) (obj end)
      ∷ item "B2" scheduled ("S1" ∷ []) (obj end)
      ∷ item "B3" scheduled ("S9" ∷ []) (obj end)
      ∷ [];
  experiments = experiment "S1" "significance" ∷ experiment "B1" "baseline" ∷ [];
  runs = [];
  events = [];
  hpo_studies = [];
  hpo_validation_jobs = [];
  evaluation_history = [];
  direct_execution_sessions = [];
  direct_execution_recoveries = [];
}

two_days-IsValid : IsValid two_days.work_items
two_days-IsValid = record {
  claims = (λ _. (refl, refl), (λ _. (refl, refl), (λ _. (refl, refl), (λ _. (refl, refl), tt))));
  keys = (refl, (refl, (refl, (refl, tt))));
}

-- With no HPO validation to reconcile the table stays as it is.
abbrev never_same : Json → Json → Bool
never_same _ _ = false

-- an outbox that takes every verdict
abbrev pub quiet : Projections
quiet = record {
  refresh_run_evidence = λ id db. ok tt;
  enqueue_learning_safely = λ evaluation db. ok [];
}

-- no delay is given in seconds
abbrev delays : Delays
delays = record { is_number = λ text. false; resolve = λ text. ok text }

abbrev day : List (Command × String)
day =
    (reconcile (pos 10), "2026-01-02T00:00:00Z")
    ∷ (promote_runnable (pos 5), "2026-01-02T00:00:01Z")
    ∷ (batch_claim "W1" (pos 2), "2026-01-02T00:00:02Z")
    ∷ (next_claim "W2", "2026-01-02T00:00:03Z")
    ∷ (repair_schedules, "2026-01-02T00:00:04Z")
    ∷ []

run-Advance_example :
    Advance two_days.work_items (run never_same quiet delays day two_days).work_items
run-Advance_example =
    run-Advance never_same quiet delays day two_days (tt, (tt, (tt, (tt, (tt, tt)))))
      two_days-IsValid

claim_batch_lem_example :
    (db' : Database) × (rows : List WorkRow) × (claim_batch "W1"
        (pos 2)
        "2026-01-02T00:00:02Z"
        two_days
      ≡ ok (db', rows))
    × RowByRow (ClaimedFrom two_days "W1" "2026-01-02T00:00:02Z") two_days.work_items db'.work_items
    × All (Owned "W1" "2026-01-02T00:00:02Z") rows
    × (length rows ≤ 2)
claim_batch_lem_example =
    claim_batch_lem "W1" (pos 2) "2026-01-02T00:00:02Z" two_days two_days-IsValid refl

reconcile_ends_example :
    Ended 10 (reconcile_scheduled_dependencies (pos 10) "2026-01-02T00:00:00Z" two_days)
reconcile_ends_example = reconcile_ends (pos 10) "2026-01-02T00:00:00Z" two_days refl

fill_capacity-le_example :
    count is_active (fill_capacity 5 "2026-01-02T00:00:01Z" two_days).0.work_items
    ≤ max 5 (count is_active two_days.work_items)
fill_capacity-le_example = fill_capacity-le 5 "2026-01-02T00:00:01Z" two_days two_days-IsValid

-- the queue with the validation job of an item that is finished
abbrev validated_day : Database
validated_day = record two_days {
  hpo_validation_jobs =
      record { id = "V1"; work_item_id = some "S1"; state = "running"; completed_at = none }
      ∷ record { id = "V2"; work_item_id = none; state = "ready"; completed_at = none }
      ∷ [];
}

-- the same queue with a deferred item whose time has come
abbrev deferred_day : Database
deferred_day = record two_days {
  work_items =
      record (item "D1" waiting_retry [] (obj end)) { retry_after = some "2026-01-01T12:00:00Z" }
      ∷ two_days.work_items;
}

promote_due_retries_lem_example :
    (any
        (is_due "2026-01-02T00:00:00Z")
        (promote_due_retries "2026-01-02T00:00:00Z" deferred_day).0.work_items
      ≡ false)
    × (count
          (λ r. is_state r.state ready)
          (promote_due_retries "2026-01-02T00:00:00Z" deferred_day).0.work_items
        ≡ 1 + (promote_due_retries "2026-01-02T00:00:00Z" deferred_day).1)
promote_due_retries_lem_example = promote_due_retries_lem "2026-01-02T00:00:00Z" deferred_day

B1_is_blocked :
    (s : Database × WorkRow) × (transition_work_item "B1" blocked
        (ready ∷ [])
        no_reason
        "2026-01-02T00:00:00Z"
        two_days
      ≡ ok (s.0, s.1))
unfolding transition_work_item transition_work_item_row
B1_is_blocked = (_, refl)

transition_work_item-Arrived_example :
    ((B1_is_blocked.0.0 ≡ two_days) × (B1_is_blocked.0.1.state ≡ blocked))
    ⊎ (row : WorkRow) × (item_at "B1" two_days.work_items ≡ some row)
      × (any (is_state row.state) (ready ∷ []) ≡ true)
      × Arrived blocked no_reason B1_is_blocked.0.1
transition_work_item-Arrived_example =
    transition_work_item-Arrived "B1" blocked (ready ∷ []) no_reason "2026-01-02T00:00:00Z" two_days
      B1_is_blocked.0.0 B1_is_blocked.0.1 B1_is_blocked.1

-- ===== src/Queue/Finish.antt =====
-- The end of an execution: `finalize_batch_evaluation` of src/ats_lab/database_queue.py and
-- `add_failure_run_awaiting_evaluation` of src/ats_lab/database_evidence.py. The normalized evidence and the
-- memory outbox, which these refresh too, are tables that the queue does not read: to refresh a run or the
-- outbox is an operation that may raise. A failure run has no session, so no two of them share one. The clock that `finalize_batch_evaluation` reads twice is one argument.
pub mod Finished
mod Samples
use algorithmic_trading_stra.Base.{
  String, Bool, true, false, not, ◌&&◌, ◌||◌, Option, none, some, List, [], ◌∷◌, ◌++◌, str_eq, find,
  select, order_by, update_where, any, if◌then◌else◌,
}
use algorithmic_trading_stra.Base.Json.{Json, Json.arr, Json.str, Json.obj, field, end, texts}
use algorithmic_trading_stra.Base.Texts.{◌<>◌, text_le}
use algorithmic_trading_stra.Base.Outcome.{
  Result, ok, err, value_error, key_error, ◌>>=◌, ◌>>◌, raise_if, or_raise,
}
use algorithmic_trading_stra.Models.{Evaluation, running, blocked, finished, is_state, state_value}
use algorithmic_trading_stra.Queue.Rows.{
  WorkRow, Run, Event, Database, update_items, add_item_event, add_event, item_at, holds, ids_of,
}
use algorithmic_trading_stra.Queue.Revisions.{append_evaluation}

-- `experiment_id=? AND state='running' AND blocker_code='awaiting_batch_evaluation'`
unfoldable pub is_awaiting : String → WorkRow → Bool
is_awaiting experiment r =
    str_eq r.experiment_id experiment
    && is_state r.state running
    && holds "awaiting_batch_evaluation" r.blocker_code

-- `ORDER BY updated_at DESC`
abbrev pub latest_first : WorkRow → WorkRow → Bool
latest_first a b = text_le b.updated_at a.updated_at

abbrev pub ambiguous : Evaluation → WorkRow → List WorkRow → String → Database → Database
ambiguous evaluation chosen candidates now =
    add_event "experiment" evaluation.experiment_id "batch_finalization_ambiguous"
      (obj
        (field "candidates" (arr (texts (ids_of candidates))) (field "chosen" (str chosen.id) end)))
      now

abbrev pub first_candidate :
    Evaluation → String → Database → List WorkRow → Result (Database × WorkRow)
first_candidate evaluation now db [] =
    err (value_error ("no awaiting execution for " <> evaluation.experiment_id))
first_candidate evaluation now db (r ∷ []) = ok (db, r)
first_candidate evaluation now db (r ∷ s ∷ rs) = ok (ambiguous evaluation r (r ∷ s ∷ rs) now db, r)

-- the execution that an evaluation finishes
unfoldable pub chosen_item :
    Evaluation → Option String → String → Database → Result (Database × WorkRow)
chosen_item evaluation (some id) now db =
    or_raise (find (λ r. str_eq r.id id && is_awaiting evaluation.experiment_id r) db.work_items) (
      value_error (
        "work item " <> id <> " is not awaiting batch evaluation for " <> evaluation.experiment_id))
    >>= λ row. ok (db, row)
chosen_item evaluation none now db =
    first_candidate evaluation now db
      (order_by latest_first (select (is_awaiting evaluation.experiment_id) db.work_items))

abbrev pub finished_item : String → WorkRow → WorkRow
finished_item now r = record r {
  state = finished;
  blocker_code = none;
  blocker_detail = none;
  claimed_by = none;
  claimed_at = none;
  updated_at = now;
}

abbrev pub with_events : List Event → Database → Database
with_events events db = record db { events = db.events ++ events }

-- Statements on tables that are not in the model, each of which may raise. `_refresh_run_evidence` takes the id
-- of a run; `enqueue_learning_safely` writes the outbox and may add an event.
pub record Projections : Type 0 where
  pub refresh_run_evidence : String → Database → Result (Unit {0})
  pub enqueue_learning_safely : Evaluation → Database → Result (List Event)

-- one refresh for each run, up to the first that raises
unfoldable pub refresh_each :
    (String → Database → Result (Unit {0})) → List Run → Database → Result (Unit {0})
refresh_each refresh_run_evidence [] db = ok tt
refresh_each refresh_run_evidence (run ∷ runs) db =
    refresh_run_evidence run.id db >> refresh_each refresh_run_evidence runs db

-- `_refresh_experiment_evidence`
unfoldable pub refresh_experiment_evidence :
    (String → Database → Result (Unit {0})) → String → Database → Result (Unit {0})
unfolding refresh_each
refresh_experiment_evidence refresh_run_evidence experiment_id db =
    refresh_each refresh_run_evidence
      (order_by (λ (a b : Run). text_le a.id b.id)
        (select (λ (r : Run). str_eq r.experiment_id experiment_id) db.runs))
      db

module _ (projections : Projections) where
  unfoldable pub finish_item :
      Evaluation → String → Database → WorkRow → Result (Database × WorkRow)
  finish_item evaluation now db row = do
    let db₁ = append_evaluation evaluation now db
    refresh_experiment_evidence projections.refresh_run_evidence evaluation.experiment_id db₁
    events ← projections.enqueue_learning_safely evaluation db₁
    let db₂ = update_items (λ r. str_eq r.id row.id) (finished_item now) (with_events events db₁)
    let payload = obj (field "from" (str "running") (field "to" (str "finished") end))
    let db₃ = add_item_event row.id "state_changed" payload now db₂
    result ← or_raise (item_at row.id db₃.work_items) (key_error row.id)
    ok (db₃, result)

  unfoldable pub finalize_batch_evaluation :
      Evaluation → Option String → String → Database → Result (Database × WorkRow)
  finalize_batch_evaluation evaluation work_item_id now db = do
    (db', row) ← chosen_item evaluation work_item_id now db
    finish_item evaluation now db' row

-- `INSERT … ON CONFLICT(id) DO UPDATE`: a run keeps its item
abbrev pub rewritten : Run → Run → Run
rewritten run old = record old {
  status = run.status;
  metrics = run.metrics;
  finished_at = run.finished_at;
}

abbrev pub upsert_run : Run → Database → Database
upsert_run run db = record db {
  runs =
      if any (λ (r : Run). str_eq r.id run.id) db.runs
      then update_where (λ (r : Run). str_eq r.id run.id) (rewritten run) db.runs
      else db.runs ++ run ∷ [];
}

abbrev pub failing_item : String → String → String → WorkRow → WorkRow
failing_item batch_id worker now r = record r {
  state = running;
  claimed_by = some worker;
  claimed_at = some now;
  blocker_code = some "awaiting_batch_evaluation";
  blocker_detail = some batch_id;
  retry_after = none;
  updated_at = now;
}

unfoldable pub add_failure_run_awaiting_evaluation :
    (String → Database → Result (Unit {0}))
    → Run
    → String
    → String
    → String
    → Database
    → Result (Database × Unit {0})
add_failure_run_awaiting_evaluation refresh_run_evidence run batch_id worker now db = do
  raise_if (str_eq run.work_item_id "") (value_error "failure run requires work_item_id")
  row ←
      or_raise (item_at run.work_item_id db.work_items)
        (key_error ("unknown work item: " <> run.work_item_id))
  raise_if (not (is_state row.state running || is_state row.state blocked))
      (value_error ("cannot analyze execution failure from " <> state_value row.state))
  let db₁ = upsert_run run db
  refresh_run_evidence run.id db₁
  let db' = update_items (λ r. str_eq r.id run.work_item_id) (failing_item batch_id worker now) db₁
  let payload = obj (
      field "batch_id" (str batch_id) (
        field "from" (str (state_value row.state))
          (field "run_id" (str run.id) (field "to" (str "running") end))))
  ok (add_item_event run.work_item_id "execution_failure_queued_for_analysis" payload now db', tt)

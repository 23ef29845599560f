-- ===== src/Queue/Evaluation.antt =====
-- Batch evaluation of src/ats_lab/database_queue.py: `mark_awaiting_evaluation` and `requeue_finished_evaluation`.
use algorithmic_trading_stra.Base.{
  String, Bool, true, false, not, ◌&&◌, Option, none, some, List, [], ◌∷◌, str_eq, count, select,
  order_by, if◌then◌else◌, ◌==◌,
}
use algorithmic_trading_stra.Base.Json.{
  Json, Json.null, Json.bool, Json.num, Json.literal, Json.str, Json.arr, Json.obj, nil, cons, end,
  field,
}
use algorithmic_trading_stra.Base.Texts.{◌<>◌, is_blank, text_lt, text_le}
use algorithmic_trading_stra.Base.Outcome.{
  Result, ok, value_error, key_error, ◌>>=◌, ◌>>◌, raise_if, or_raise,
}
use algorithmic_trading_stra.Models.{state_value, running, finished, is_state}
use algorithmic_trading_stra.Queue.Rows.{
  WorkRow, Run, Database, update_items, add_item_event, item_at,
}

abbrev pub awaiting : String → String → WorkRow → WorkRow
awaiting batch_id now r = record r {
  blocker_code = some "awaiting_batch_evaluation";
  blocker_detail = some batch_id;
  updated_at = now;
}

-- `WHERE id=? AND state='running'`
abbrev pub is_running_item : String → WorkRow → Bool
is_running_item id r = str_eq r.id id && is_state r.state running

unfoldable pub mark_awaiting_evaluation :
    String → String → String → Database → Result (Database × Unit {0})
mark_awaiting_evaluation id batch_id now db = do
  raise_if (not (count (is_running_item id) db.work_items == 1))
      (value_error ("work item is not running: " <> id))
  ok (update_items (is_running_item id) (awaiting batch_id now) db, tt)

-- `ORDER BY finished_at DESC, id DESC`, with NULL last
unfoldable pub run_order : Run → Run → Bool
run_order a b = go a.finished_at b.finished_at
  where
    go : Option String → Option String → Bool
    go none none = text_le b.id a.id
    go none (some _) = false
    go (some _) none = true
    go (some s) (some t) =
        if text_lt t s then true else if str_eq s t then text_le b.id a.id else false

-- Python's truth of a decoded document; the literals of zero are false.
unfoldable pub truthy : Json → Bool
truthy null = false
truthy (bool b) = b
truthy (num n) = not (n == 0)
truthy (literal s) = not (str_eq s "0.0") && not (str_eq s "-0.0") && not (str_eq s "-0")
truthy (str s) = not (str_eq s "")
truthy (arr nil) = false
truthy (arr (cons _ _)) = true
truthy (obj end) = false
truthy (obj (field _ _ _)) = true

abbrev latest : List Run → Option Run
latest [] = none
latest (r ∷ _) = some r

-- the latest finished run of an item
unfoldable pub finished_run : String → List Run → Option Run
finished_run id runs = latest (
    order_by run_order
      (select (λ (r : Run). str_eq r.work_item_id id && str_eq r.status "finished") runs))

abbrev pub metrics_of : Run → Bool
metrics_of run = elim run.metrics [ none ↦ false | some m ↦ truthy m ]

abbrev pub reopened : String → String → String → WorkRow → WorkRow
reopened worker batch_id now r = record r {
  state = running;
  claimed_by = some worker;
  claimed_at = some now;
  blocker_code = some "awaiting_batch_evaluation";
  blocker_detail = some batch_id;
  updated_at = now;
}

-- `batch_id` is the argument, or the generated `RECOVERY-…` where the caller gave none.
unfoldable pub requeue_finished_evaluation :
    String → String → String → String → String → Database → Result (Database × WorkRow)
requeue_finished_evaluation id worker reason batch_id now db = do
  raise_if (is_blank reason) (value_error "requeue reason is required")
  row ← or_raise (item_at id db.work_items) (key_error ("unknown work item: " <> id))
  raise_if (not (is_state row.state finished))
      (value_error ("cannot requeue evaluation for " <> id <> " from " <> state_value row.state))
  run ←
      or_raise (finished_run id db.runs)
        (value_error ("cannot requeue evaluation without finished run: " <> id))
  raise_if (not (metrics_of run))
      (value_error ("cannot requeue evaluation without metrics: " <> id))
  let db' =
      update_items (λ r. str_eq r.id id && is_state r.state finished) (reopened worker batch_id now)
        db
  let payload = obj (
      field "batch_id" (str batch_id) (
        field "from" (str "finished") (
          field "reason" (str reason)
            (field "run_id" (str run.id) (field "to" (str "running") end)))))
  let db'' = add_item_event id "evaluation_requeued" payload now db'
  result ← or_raise (item_at id db''.work_items) (key_error id)
  ok (db'', result)

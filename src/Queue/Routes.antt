-- ===== src/Queue/Routes.antt =====
-- `repair_work_item_data_routes` of src/ats_lab/database_queue.py.
use algorithmic_trading_stra.Base.{
  ℕ, suc, String, Bool, false, not, ◌||◌, Option, none, some, [], ◌∷◌, ◌++◌, str_eq, find, any,
  count, select, is_some, if◌then◌else◌, ◌==◌, some_or,
}
use algorithmic_trading_stra.Base.Int.{ℤ}
use algorithmic_trading_stra.Base.Json.{
  Json, Json.arr, Json.obj, Json.str, Json.num, Items, Fields, nil, cons, field, end, get_field,
  set_field, optional,
}
use algorithmic_trading_stra.Base.Texts.{◌<>◌, is_blank, decimal}
use algorithmic_trading_stra.Base.Outcome.{
  Result, ok, err, value_error, key_error, runtime_error, ◌>>=◌, ◌>>◌, raise_if, or_raise,
}
use algorithmic_trading_stra.Models.{
  WorkState, scheduled, running, waiting_retry, blocked, finished, archived, is_state, state_value,
}
use algorithmic_trading_stra.Queue.Rows.{
  WorkRow, Run, Checkpoint, Recovery, Database, update_items, add_item_event, item_at,
}
use algorithmic_trading_stra.Queue.Dependencies.{promote_scheduled_runnable}

abbrev pub is_filled : Option Json → Bool
is_filled (some (str s)) = not (is_blank s)
is_filled _ = false

abbrev route_field : ℕ → Fields → String → Result (Unit {0})
route_field index route name =
    raise_if (not (is_filled (get_field name route)))
      (value_error ("data_routes[" <> decimal index <> "]." <> name <> " must be non-empty text"))

-- one route of the list
abbrev check_route : ℕ → Json → Result (Unit {0})
check_route index (obj route) = do
  route_field index route "exchange"
  route_field index route "symbol"
  route_field index route "timeframe"
check_route index _ = err (value_error ("data_routes[" <> decimal index <> "] must be an object"))

unfoldable pub check_items : ℕ → Items → Result (Unit {0})
check_items index nil = ok tt
check_items index (cons route routes) = check_route index route >> check_items (suc index) routes

unfoldable pub check_routes : Json → Result (Unit {0})
check_routes (arr routes) = check_items 0 routes
check_routes _ = err (value_error "data_routes must be a list")

-- `row["state"] in {RUNNING, FINISHED, ARCHIVED}`
abbrev pub is_settled : WorkState → Bool
is_settled s = is_state s running || is_state s finished || is_state s archived

abbrev pub changed_session : Checkpoint → Recovery → Bool
changed_session checkpoint recovery =
    not (str_eq recovery.old_session_id checkpoint.session_id)
    || is_some recovery.replacement_session_id

-- the recovery that lets a replacement session be made
abbrev pub recovery_of : Checkpoint → String → Recovery
recovery_of checkpoint now = record {
  work_item_id = checkpoint.work_item_id;
  old_session_id = checkpoint.session_id;
  old_state = checkpoint.state;
  reason = "data-route repair invalidated stale Jesse session";
  replacement_allowed = 1;
  replacement_session_id = none;
  created_at = now;
  updated_at = now;
}

unfoldable pub record_recovery : Checkpoint → Option Recovery → String → Database → Result Database
record_recovery checkpoint none now db = ok (record db {
  direct_execution_recoveries = db.direct_execution_recoveries ++ recovery_of checkpoint now ∷ [];
})
record_recovery checkpoint (some recovery) now db =
    raise_if (changed_session checkpoint recovery)
      (value_error "cannot repair data routes after replacement session creation")
    >> ok db

abbrev pub session_of : String → Checkpoint → Bool
session_of id c = str_eq c.work_item_id id

unfoldable pub delete_session : String → Database → Result Database
delete_session id db =
    raise_if (not (count (session_of id) db.direct_execution_sessions == 1))
      (runtime_error ("data-route repair checkpoint changed concurrently: " <> id))
    >> ok (record db {
      direct_execution_sessions = select (λ c. not (session_of id c)) db.direct_execution_sessions;
    })

-- what a repair does with the checkpoint of a session
unfoldable pub invalidate : String → Option Checkpoint → String → Database → Result Database
unfolding record_recovery delete_session
invalidate id none now db = ok db
invalidate id (some checkpoint) now db =
    record_recovery checkpoint
      (find (λ (r : Recovery). str_eq r.work_item_id id) db.direct_execution_recoveries) now db
    >>= delete_session id

abbrev pub object_of : Json → Result Fields
object_of (obj fs) = ok fs
object_of _ = err (value_error "work item specification must be an object")

unfoldable pub target_state : WorkState → WorkState
target_state s = if is_state s waiting_retry || is_state s blocked then scheduled else s

abbrev pub rerouted : WorkState → Json → String → WorkRow → WorkRow
rerouted target specification now r = record r {
  state = target;
  attempts = 0;
  retry_after = none;
  blocker_code = none;
  blocker_detail = none;
  claimed_by = none;
  claimed_at = none;
  specification = specification;
  updated_at = now;
}

unfoldable pub invalidated_id : Option Checkpoint → Option String
invalidated_id none = none
invalidated_id (some c) = some c.session_id

-- the transaction
unfoldable pub reroute : String → Json → String → String → Database → Result (Database × Unit {0})
unfolding target_state invalidate
reroute id data_routes reason now db = do
  raise_if (is_blank id) (value_error "work_item_id is required")
  raise_if (is_blank reason) (value_error "reason is required")
  check_routes data_routes
  row ← or_raise (item_at id db.work_items) (key_error ("unknown work item: " <> id))
  raise_if (is_settled row.state)
      (value_error ("cannot repair data routes for work item in " <> state_value row.state))
  raise_if (any (λ (r : Run). str_eq r.work_item_id id) db.runs)
      (value_error "cannot repair data routes after durable execution evidence")
  let checkpoint = find (session_of id) db.direct_execution_sessions
  db₁ ← invalidate id checkpoint now db
  specification ← object_of row.specification
  let target = target_state row.state
  let db₂ =
      update_items (λ r. str_eq r.id id)
        (rerouted target (obj (set_field "data_routes" data_routes specification)) now) db₁
  let payload = obj (
      field "attempts_reset" (num 1) (
        field "data_routes" data_routes (
          field "invalidated_session_id" (optional (invalidated_id checkpoint)) (
            field "previous_data_routes" (some_or (get_field "data_routes" specification) (arr nil))
              (field "reason" (str reason)
                (field "reopened_state" (str (state_value target)) end))))))
  ok (add_item_event id "data_routes_repaired" payload now db₂, tt)

module _ (reconcile_hpo : Option (String → Database → Database × Result (Unit {0}))) where
  unfoldable pub repaired : String → Database × Result ℕ → Database × Result (WorkState × ℕ)
  repaired id (db, promoted) = (
    db,
    do n ← promoted; row ← or_raise (item_at id db.work_items) (key_error id); ok (row.state, n),
  )

  unfoldable pub after_reroute :
      String
      → ℤ
      → String
      → Database
      → Result (Database × Unit {0})
      → Database × Result (WorkState × ℕ)
  unfolding repaired
  after_reroute id active_limit now db (err e) = (db, err e)
  after_reroute id active_limit now db (ok (db', _)) =
      repaired id (promote_scheduled_runnable reconcile_hpo active_limit now db')

  -- The result is the state and the number under "promoted".
  unfoldable pub repair_work_item_data_routes :
      String → Json → String → ℤ → String → Database → Database × Result (WorkState × ℕ)
  unfolding after_reroute
  repair_work_item_data_routes id data_routes reason active_limit now db =
      after_reroute id active_limit now db (reroute id data_routes reason now db)

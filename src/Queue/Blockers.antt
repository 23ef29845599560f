-- ===== src/Queue/Blockers.antt =====
-- Blockers of src/ats_lab/database_queue.py: `resolve_blocked_work_item`, `rectify_blocked_work_item`, the
-- transaction of `retry_blocked_work_item`, `archive_scheduled_dependents` and
-- `mark_unroutable_hpo_requirements_pending`.
use algorithmic_trading_stra.Base.{
  ℕ, String, Bool, true, false, not, ◌&&◌, ◌||◌, Option, none, some, List, [], ◌∷◌, ◌++◌, str_eq,
  if◌then◌else◌, ◌==◌, length, any, update_where,
}
use algorithmic_trading_stra.Base.Int.{ℤ, pos, ltb_ℤ}
use algorithmic_trading_stra.Base.Json.{
  Json, Json.obj, Json.str, Json.num, Json.bool, Json.arr, field, end, cons, nil, texts, optional,
  member, set_field, json_array_length,
}
use algorithmic_trading_stra.Base.Texts.{◌<>◌, is_blank, strip}
use algorithmic_trading_stra.Base.Outcome.{
  Result, ok, value_error, key_error, ◌>>=◌, ◌>>◌, raise_if, or_raise,
}
use algorithmic_trading_stra.Models.{state_value, scheduled, ready, blocked, archived, is_state}
use algorithmic_trading_stra.Queue.Rows.{
  WorkRow, Experiment, Study, Database, update_items, add_item_event, item_at, holds,
}
use algorithmic_trading_stra.Queue.Claims.{is_hpo}

-- `SELECT * FROM work_items WHERE id=?`, which raises unless there is such a row and it is blocked
unfoldable pub blocked_row : String → String → Database → Result WorkRow
blocked_row verb id db = do
  row ← or_raise (item_at id db.work_items) (key_error ("unknown work item: " <> id))
  raise_if (not (is_state row.state blocked))
      (value_error ("cannot " <> verb <> " " <> id <> " from " <> state_value row.state))
  ok row

-- `UPDATE work_items SET f WHERE id=? AND state='blocked'`, one event, and the row as it now stands
unfoldable pub leave_blocked :
    String → (WorkRow → WorkRow) → String → Json → String → Database → Result (Database × WorkRow)
leave_blocked id f event_type payload now db = do
  let db' = update_items (λ r. str_eq r.id id && is_state r.state blocked) f db
  let db'' = add_item_event id event_type payload now db'
  row ← or_raise (item_at id db''.work_items) (key_error id)
  ok (db'', row)

abbrev pub resolved : String → WorkRow → WorkRow
resolved now r = record r {
  state = ready;
  retry_after = none;
  blocker_code = none;
  blocker_detail = none;
  claimed_by = none;
  claimed_at = none;
  updated_at = now;
}

unfoldable pub resolve_blocked_work_item :
    String → String → String → List String → String → Database → Result (Database × WorkRow)
unfolding blocked_row leave_blocked
resolve_blocked_work_item id resolution_code detail evidence_ids now db = do
  raise_if (is_blank resolution_code) (value_error "resolution_code is required")
  raise_if (is_blank detail) (value_error "resolution detail is required")
  row ← blocked_row "resolve" id db
  let payload = obj (
      field "detail" (str detail) (
        field "evidence_ids" (arr (texts evidence_ids)) (
          field "from" (str "blocked") (
            field "previous_blocker_code" (optional row.blocker_code)
              (field "resolution_code" (str resolution_code) (field "to" (str "ready") end))))))
  leave_blocked id (resolved now) "blocker_resolved" payload now db

abbrev pub requeued : String → WorkRow → WorkRow
requeued now r = record r {
  state = scheduled;
  attempts = 0;
  retry_after = none;
  blocker_code = none;
  blocker_detail = none;
  claimed_by = none;
  claimed_at = none;
  updated_at = now;
}

-- The transaction of `retry_blocked_work_item`; what follows it is in Dependencies.
unfoldable pub request_retry : String → String → ℤ → String → Database → Result (Database × WorkRow)
unfolding blocked_row leave_blocked
request_retry id reason active_limit now db = do
  raise_if (is_blank reason) (value_error "retry reason is required")
  raise_if (ltb_ℤ active_limit (pos 1)) (value_error "active_limit must be positive")
  row ← blocked_row "retry" id db
  let payload = obj (
      field "attempts_reset" (bool true) (
        field "from" (str "blocked") (
          field "previous_attempts" (num row.attempts) (
            field "previous_blocker_code" (optional row.blocker_code) (
              field "previous_blocker_detail" (optional row.blocker_detail) (
                field "prior_runs_preserved" (bool true)
                  (field "reason" (str (strip reason)) (field "to" (str "scheduled") end))))))))
  leave_blocked id (requeued now) "blocker_retry_requested" payload now db

abbrev pub rectified : String → String → WorkRow → WorkRow
rectified reason now r = record r {
  state = archived;
  retry_after = none;
  blocker_code = some "legacy_history";
  blocker_detail = some ("Rectified by operator: " <> reason);
  claimed_by = none;
  claimed_at = none;
  updated_at = now;
}

unfoldable pub rectify_blocked_work_item :
    String → String → String → Database → Result (Database × WorkRow)
unfolding blocked_row leave_blocked
rectify_blocked_work_item id reason now db = do
  raise_if (is_blank reason) (value_error "rectification reason is required")
  row ← blocked_row "rectify" id db
  let payload = obj (
      field "execution_started" (bool false) (
        field "from" (str "blocked") (
          field "previous_attempts" (num row.attempts) (
            field "previous_blocker_code" (optional row.blocker_code) (
              field "previous_blocker_detail" (optional row.blocker_detail)
                (field "reason" (str (strip reason)) (field "to" (str "archived") end)))))))
  leave_blocked id (rectified (strip reason) now) "blocker_rectified" payload now db

-- `SELECT child.id … JOIN json_each(child.dependencies_json) dependency ON dependency.value=?
-- WHERE child.state='scheduled'`: one row for each time that the child names the dependency
unfoldable pub naming : String → String → List String → List String
naming child id [] = []
naming child id (dep ∷ deps) =
    let rest = naming child id deps in if str_eq dep id then child ∷ rest else rest

unfoldable pub scheduled_dependents : String → List WorkRow → List String
unfolding naming
scheduled_dependents id [] = []
scheduled_dependents id (r ∷ rs) =
    (if is_state r.state scheduled then naming r.id id r.dependencies else [])
    ++ scheduled_dependents id rs

abbrev pub closed : String → WorkRow → WorkRow
closed now r = record r {
  state = archived;
  blocker_code = none;
  blocker_detail = none;
  updated_at = now;
}

unfoldable pub archive_each : String → String → String → List String → Database → Database
archive_each id reason now [] db = db
archive_each id reason now (child ∷ children) db =
    let db' = update_items (λ r. str_eq r.id child && is_state r.state scheduled) (closed now) db in
    let payload = obj (field "dependency" (str id) (field "reason" (str reason) end)) in
    archive_each id reason now children (add_item_event child "dependent_archived" payload now db')

unfoldable pub archive_scheduled_dependents : String → String → String → Database → Database × ℕ
archive_scheduled_dependents id reason now db =
    let children = scheduled_dependents id db.work_items in
    (archive_each id reason now children db, length children)

-- `specification["readiness"] = {"status": "requirements_pending", "missing": ["hpo_routes"]}`
abbrev pub with_pending_readiness : Json → Json
with_pending_readiness (Json.obj fs) = Json.obj (
    set_field "readiness"
      (Json.obj (
        field "status" (Json.str "requirements_pending")
          (field "missing" (Json.arr (cons (Json.str "hpo_routes") nil)) end)))
      fs)
with_pending_readiness other = other

-- The experiment joined to the row has no routes.
unfoldable pub lacks_routes : List Experiment → WorkRow → Bool
lacks_routes experiments r =
    any
      (λ (e : Experiment).
        str_eq e.id r.experiment_id
        && (json_array_length (member "routes" (some e.specification)) == 0))
      experiments

unfoldable pub is_unroutable : List Experiment → WorkRow → Bool
unfolding lacks_routes
is_unroutable experiments r =
    (is_state r.state scheduled || is_state r.state ready) && is_hpo r && lacks_routes experiments r

abbrev pub pending : Json → String → WorkRow → WorkRow
pending specification now r = record r {
  specification = specification;
  blocker_code = some "requirements_pending";
  blocker_detail = some "HPO execution requires configured routes";
  updated_at = now;
}

-- `UPDATE hpo_studies … WHERE id=? AND lifecycle_state='hpo_running'`
abbrev pub unstart_study : String → String → Study → Study
unstart_study id now s =
    if str_eq s.id id && str_eq s.lifecycle_state "hpo_running"
    then record s { lifecycle_state = "hpo_scheduled"; started_at = none; updated_at = now }
    else s

unstart : Option String → String → List Study → List Study
unstart none now studies = studies
unstart (some id) now studies = update_where (λ _. true) (unstart_study id now) studies

-- `LEFT JOIN hpo_studies s ON s.hpo_work_item_id=w.id`: one row for each study, or one without
studies_of : WorkRow → List Study → List String
studies_of r [] = []
studies_of r (s ∷ ss) =
    let rest = studies_of r ss in if holds r.id s.hpo_work_item_id then s.id ∷ rest else rest

abbrev left_joined : WorkRow → List String → List (WorkRow × Option String)
left_joined r [] = (r, none) ∷ []
left_joined r (id ∷ ids) = go id ids
  where
    go : String → List String → List (WorkRow × Option String)
    go x [] = (r, some x) ∷ []
    go x (y ∷ ys) = (r, some x) ∷ go y ys

unroutable_rows : Database → List WorkRow → List (WorkRow × Option String)
unfolding studies_of
unroutable_rows db [] = []
unroutable_rows db (r ∷ rs) =
    (if is_unroutable db.experiments r then left_joined r (studies_of r db.hpo_studies) else [])
    ++ unroutable_rows db rs

unfoldable pub mark_each : String → List (WorkRow × Option String) → Database → Database
unfolding unstart
mark_each now [] db = db
mark_each now ((row, study) ∷ rows) db =
    let hit = λ (r : WorkRow).
      str_eq r.id row.id && (is_state r.state scheduled || is_state r.state ready) in
    let db' = update_items hit (pending (with_pending_readiness row.specification) now) db in
    let db'' = record db' { hpo_studies = unstart study now db'.hpo_studies } in
    let payload = obj (field "reason" (str "hpo_routes") end) in
    mark_each now rows (add_item_event row.id "readiness_pending" payload now db'')

unfoldable pub mark_unroutable_hpo_requirements_pending : String → Database → Database × ℕ
unfolding unroutable_rows
mark_unroutable_hpo_requirements_pending now db =
    let rows = unroutable_rows db db.work_items in (mark_each now rows db, length rows)

-- ===== src/Queue/Dependencies.antt =====
-- Dependencies of src/ats_lab/database_queue.py: `reconcile_scheduled_dependencies`, `promote_scheduled_runnable`
-- and `retry_blocked_work_item`. A method that opens several transactions keeps what the earlier ones
-- committed when a later one raises, so it returns its state beside the result.
pub mod Progress
pub mod Capacity
use algorithmic_trading_stra.Base.{
  ℕ, zero, suc, ◌+◌, ◌-◌, String, Bool, true, false, not, ◌&&◌, ◌||◌, Option, none, some, List, [],
  ◌∷◌, ◌++◌, if◌then◌else◌, leb, select, order_by, take, count, length,
}
use algorithmic_trading_stra.Base.Int.{ℤ, pos, pos_part, ltb_ℤ}
use algorithmic_trading_stra.Base.Json.{Json, Json.obj, Json.str, Json.arr, field, end, texts}
use algorithmic_trading_stra.Base.Texts.{◌<>◌, join, text_le}
use algorithmic_trading_stra.Base.Outcome.{Result, ok, err, value_error, ◌>>=◌}
use algorithmic_trading_stra.Models.{scheduled, ready, blocked, finished, archived, is_state}
use algorithmic_trading_stra.Queue.Rows.{
  WorkRow, Experiment, Database, update_items, add_item_event, item_at, holds, requirements_met,
  gate_passed, is_significance, exists_parent, queue_order, is_active, id_in, ids_of,
}
use algorithmic_trading_stra.Queue.Transitions.{Reason, no_reason, transition_work_item_row}
use algorithmic_trading_stra.Queue.Claims.{is_empty}
use algorithmic_trading_stra.Queue.Blockers.{request_retry}

-- what one child's dependencies are, by id
pub record Found : Type 0 where
  pub missing : List String
  pub archived_ids : List String
  pub blocked_ids : List String
  pub gate_blocked : List String
  pub unfinished : List String

abbrev pub nothing_found : Found
nothing_found = record {
  missing = [];
  archived_ids = [];
  blocked_ids = [];
  gate_blocked = [];
  unfinished = [];
}

-- One row of the join appended to its child's item.
unfoldable pub classify : Database → String → Option WorkRow → Found → Found
classify db dep none f = record f { missing = f.missing ++ dep ∷ [] }
classify db dep (some parent) f =
    if is_state parent.state archived
    then record f { archived_ids = f.archived_ids ++ dep ∷ [] }
    else if is_state parent.state blocked
    then record f { blocked_ids = f.blocked_ids ++ dep ∷ [] }
    else if not (is_state parent.state finished)
    then record f { unfinished = f.unfinished ++ dep ∷ [] }
    else if is_significance db.experiments parent && not (gate_passed parent)
    then record f { gate_blocked = f.gate_blocked ++ dep ∷ [] }
    else f

unfoldable pub gather : Database → List String → Found → Found
gather db [] f = f
gather db (dep ∷ deps) f = gather db deps (classify db dep (item_at dep db.work_items) f)

-- The child rows of the query, with what their dependencies are; a child that names none has no row.
unfoldable pub waiting_children : Database → List (String × Found)
waiting_children db = go (
    order_by (λ (a b : WorkRow). text_le a.id b.id)
      (select
        (λ (r : WorkRow).
          (is_state r.state scheduled || is_state r.state blocked) && not (is_empty r.dependencies))
        db.work_items))
  where
    go : List WorkRow → List (String × Found)
    go [] = []
    go (r ∷ rs) = (r.id, gather db (order_by text_le r.dependencies) nothing_found) ∷ go rs

-- the result dictionary
pub record Reconciled : Type 0 where
  pub archived_ids : List String
  pub blocked_ids : List String
  pub released_ids : List String

abbrev pub nothing_done : Reconciled
nothing_done = record { archived_ids = []; blocked_ids = []; released_ids = [] }

-- `sum(len(ids) for ids in result.values())`
abbrev pub total : Reconciled → ℕ
total r = length r.archived_ids + length r.blocked_ids + length r.released_ids

abbrev because : String → String → Reason
because code detail = record {
  blocker_code = some code;
  blocker_detail = some detail;
  retry_after = none;
}

abbrev note : String → String → List String → Json
note action reason deps = obj (
    field "action" (str action)
      (field "dependencies" (arr (texts deps)) (field "reason" (str reason) end)))

-- A missing or archived parent archives the child.
unfoldable pub archive_child :
    WorkRow → Found → String → Database × Reconciled → Result (Database × Reconciled)
archive_child row f now (db, done) = do
  let code = if is_empty f.missing then "dependency_archived" else "missing_dependency"
  let deps = if is_empty f.missing then f.archived_ids else f.missing
  let detail =
      if is_empty f.missing
      then "Dependency work item is archived: " <> join ", " f.archived_ids
      else "Dependency work item is missing: " <> join ", " f.missing
  result ←
      transition_work_item_row row archived (scheduled ∷ blocked ∷ []) (because code detail) now db
  ok (
    add_item_event row.id "dependency_reconciled" (note "archived" code deps) now result.0,
    record done { archived_ids = done.archived_ids ++ row.id ∷ [] },
  )

abbrev detail_parts : Found → List String
detail_parts f =
    (if is_empty f.blocked_ids
      then []
      else ("Dependency work item is blocked: " <> join ", " f.blocked_ids) ∷ [])
    ++ (if is_empty f.gate_blocked
        then []
        else ("Significance gate is not passed for dependency work item: "
            <> join ", " f.gate_blocked)
          ∷ [])

-- A blocked parent, or a significance parent without a passing gate, blocks a scheduled child.
unfoldable pub block_child :
    WorkRow → Found → String → Database × Reconciled → Result (Database × Reconciled)
block_child row f now (db, done) = do
  result ←
      transition_work_item_row row blocked (scheduled ∷ [])
        (because "dependency_blocked" (join "; " (detail_parts f))) now db
  ok (
    add_item_event row.id "dependency_reconciled"
        (note "blocked" "dependency_blocked" f.blocked_ids) now result.0,
    record done { blocked_ids = done.blocked_ids ++ row.id ∷ [] },
  )

-- A child that only this rule blocked goes back to the schedule.
unfoldable pub release_child :
    WorkRow → String → Database × Reconciled → Result (Database × Reconciled)
release_child row now (db, done) = do
  result ← transition_work_item_row row scheduled (blocked ∷ []) no_reason now db
  let payload =
      obj (field "action" (str "released") (field "reason" (str "dependencies_finished") end))
  ok (
    add_item_event row.id "dependency_reconciled" payload now result.0,
    record done { released_ids = done.released_ids ++ row.id ∷ [] },
  )

-- `changed = True`
abbrev pub mark_changed : Database × Reconciled → Result (Database × Reconciled × Bool)
mark_changed (db, done) = ok (db, done, true)

-- The body of the loop over the children, for a child whose row is still there. The Boolean is `changed`.
unfoldable pub reconcile_row :
    WorkRow → Found → String → Database × Reconciled × Bool → Result (Database × Reconciled × Bool)
reconcile_row row f now (db, done, changed) =
    if not (is_empty f.missing && is_empty f.archived_ids)
    then (archive_child row f now (db, done) >>= mark_changed)
    else if not (is_empty f.blocked_ids && is_empty f.gate_blocked) && is_state row.state scheduled
    then (block_child row f now (db, done) >>= mark_changed)
    else if is_state row.state blocked
        && holds "dependency_blocked" row.blocker_code
        && is_empty f.blocked_ids
        && is_empty f.gate_blocked
        && is_empty f.unfinished
    then (release_child row now (db, done) >>= mark_changed)
    else ok (db, done, changed)

-- `row is None: continue`
unfoldable pub reconcile_found :
    Option WorkRow
    → Found
    → String
    → Database × Reconciled × Bool
    → Result (Database × Reconciled × Bool)
reconcile_found none f now s = ok s
reconcile_found (some row) f now s = reconcile_row row f now s

-- One pass over the children, which stops once `limit` of them have changed.
unfoldable pub reconcile_pass :
    ℕ
    → String
    → List (String × Found)
    → Database × Reconciled × Bool
    → Result (Database × Reconciled × Bool)
reconcile_pass limit now [] s = ok s
reconcile_pass limit now ((id, f) ∷ children) (db, done, changed) =
    if leb limit (total done) then ok (db, done, changed) else do
      s ← reconcile_found (item_at id db.work_items) f now (db, done, changed)
      reconcile_pass limit now children s

-- What follows a pass: another one where it changed something. An error keeps what the passes before
-- it committed.
unfoldable pub after_pass :
    Database
    → Result (Database × Reconciled × Bool)
    → (Database × Reconciled → Database × Result (Reconciled × Bool))
    → Database × Result (Reconciled × Bool)
after_pass db (err e) again = (db, err e)
after_pass db (ok (db', done, true)) again = again (db', done)
after_pass db (ok (db', done, false)) again = (db', ok (done, true))

-- `while sum(…) < limit`, on fuel: the Boolean is false where the fuel ran out.
unfoldable pub reconcile_loop :
    ℕ → ℕ → String → Database × Reconciled → Database × Result (Reconciled × Bool)
reconcile_loop zero limit now (db, done) = (db, ok (done, leb limit (total done)))
reconcile_loop (suc fuel) limit now (db, done) =
    let next =
      after_pass db (reconcile_pass limit now (waiting_children db) (db, done, false))
        (reconcile_loop fuel limit now) in
    if leb limit (total done) then (db, ok (done, true)) else next

unfoldable pub reconcile_scheduled_dependencies :
    ℤ → String → Database → Database × Result (Reconciled × Bool)
reconcile_scheduled_dependencies limit now db =
    if ltb_ℤ limit (pos 1)
    then (db, err (value_error "limit must be positive"))
    else reconcile_loop (pos_part limit) (pos_part limit) now (db, nothing_done)

-- the significance parent has not passed its gate
unfoldable pub gate_failed : List Experiment → WorkRow → Bool
gate_failed experiments p = is_significance experiments p && not (gate_passed p)

-- `LEFT JOIN work_items parent … WHERE parent.id IS NULL OR parent.state!='finished'`
unfoldable pub all_finished : List WorkRow → List String → Bool
all_finished items [] = true
all_finished items (dep ∷ deps) =
    elim (item_at dep items) [ none ↦ false | some p ↦ is_state p.state finished ]
    && all_finished items deps

unfoldable pub is_runnable : Database → WorkRow → Bool
is_runnable db r =
    is_state r.state scheduled
    && requirements_met r
    && all_finished db.work_items r.dependencies
    && not (exists_parent (gate_failed db.experiments) db.work_items r.dependencies)

abbrev pub promoted : String → WorkRow → WorkRow
promoted now r = record r { state = ready; updated_at = now }

-- The last transaction of `promote_scheduled_runnable`.
unfoldable pub fill_capacity : ℕ → String → Database → Database × ℕ
fill_capacity active_limit now db =
    let capacity = active_limit - count is_active db.work_items in
    let ids =
      ids_of (take capacity (order_by queue_order (select (is_runnable db) db.work_items))) in
    (update_items (λ r. is_state r.state scheduled && id_in ids r) (promoted now) db, length ids)

-- a transaction after one that did not raise
abbrev pub after {ℓ} :
    {A : Type ℓ} → Database × Result A → (A → Database → Database × Result ℕ) → Database × Result ℕ
after (db, ok a) k = k a db
after (db, err e) k = (db, err e)

-- `reconcile_hpo` is the method `reconcile_hpo_validation_jobs` of the class that the queue is mixed
-- into, where it has one.
module _ (reconcile_hpo : Option (String → Database → Database × Result (Unit {0}))) where
  unfoldable pub run_reconcile_hpo : String → Database → Database × Result (Unit {0})
  run_reconcile_hpo now db = elim reconcile_hpo [ none ↦ (db, ok tt) | some f ↦ f now db ]

  unfoldable pub promote_scheduled_runnable : ℤ → String → Database → Database × Result ℕ
  unfolding run_reconcile_hpo
  promote_scheduled_runnable active_limit now db =
      if ltb_ℤ active_limit (pos 1)
      then (db, err (value_error "active_limit must be positive"))
      else after (reconcile_scheduled_dependencies (pos 1000) now db) (λ _ db'.
        after (run_reconcile_hpo now db')
          (λ _ db''. let (db₃, n) = fill_capacity (pos_part active_limit) now db'' in (db₃, ok n)))

  unfoldable pub after_request :
      ℤ → String → Database → Result (Database × WorkRow) → Database × Result ℕ
  after_request active_limit now db (err e) = (db, err e)
  after_request active_limit now db (ok (db', row)) =
      promote_scheduled_runnable active_limit now db'

  -- The result is what `promote_scheduled_runnable` returns, under "promoted".
  unfoldable pub retry_blocked_work_item :
      String → String → ℤ → String → Database → Database × Result ℕ
  unfolding after_request
  retry_blocked_work_item id reason active_limit now db =
      after_request active_limit now db (request_retry id reason active_limit now db)

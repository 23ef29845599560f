-- ===== src/Queue/Claims.antt =====
-- Claims of src/ats_lab/database_queue.py: `claim_next`, `claim_batch`, `recover_stale_unexecuted_claims`
-- and `recover_abandoned_claims`. `now` is what `utc_now()` returns.
pub mod Batch
use algorithmic_trading_stra.Base.{
  ℕ, String, Bool, true, false, not, ◌&&◌, ◌||◌, Option, none, some, List, [], ◌∷◌, str_eq,
  if◌then◌else◌, select, take, order_by, any, count,
}
use algorithmic_trading_stra.Base.Int.{ℤ, pos, pos_part, ltb_ℤ}
use algorithmic_trading_stra.Base.Json.{Json, Json.obj, Json.str, field, end, member, is_text}
use algorithmic_trading_stra.Base.Texts.{text_lt, text_le}
use algorithmic_trading_stra.Base.Outcome.{Result, ok, value_error, ◌>>◌, raise_if}
use algorithmic_trading_stra.Models.{ready, running, finished, is_state}
use algorithmic_trading_stra.Queue.Rows.{
  WorkRow, Run, Experiment, Database, update_items, add_item_event, item_at, holds,
  requirements_met, gate_passed, is_significance, exists_parent, queue_order, id_in, ids_of,
}

-- the joined significance parent has not finished, or has not passed its gate
unfoldable pub gate_open : List Experiment → WorkRow → Bool
gate_open experiments p =
    is_significance experiments p && (not (is_state p.state finished) || not (gate_passed p))

-- the WHERE clause that `claim_next` and `claim_batch` share
unfoldable pub claimable : Database → WorkRow → Bool
claimable db r =
    is_state r.state ready
    && requirements_met r
    && not (exists_parent (gate_open db.experiments) db.work_items r.dependencies)

abbrev pub claimed : String → String → WorkRow → WorkRow
claimed worker now r = record r {
  state = running;
  claimed_by = some worker;
  claimed_at = some now;
  updated_at = now;
}

-- the row that the query found, claimed
unfoldable pub claim_first : String → String → List WorkRow → Database → Database × Option WorkRow
claim_first worker now [] db = (db, none)
claim_first worker now (row ∷ _) db =
    let db' =
      update_items (λ r. str_eq r.id row.id && is_state r.state ready) (claimed worker now) db in
    (db', item_at row.id db'.work_items)

unfoldable pub claim_next : String → String → Database → Database × Option WorkRow
claim_next worker now db =
    claim_first worker now (order_by queue_order (select (claimable db) db.work_items)) db

-- `json_extract(specification_json,'$.operation') = 'hpo'`
unfoldable pub is_hpo : WorkRow → Bool
is_hpo r = is_text "hpo" (member "operation" (some r.specification))

-- `ORDER BY CASE WHEN … = 'hpo' THEN 0 ELSE 1 END, priority, created_at, id`
unfoldable pub batch_order : WorkRow → WorkRow → Bool
batch_order a b =
    if is_hpo a
    then (if is_hpo b then queue_order a b else true)
    else if is_hpo b
    then false
    else queue_order a b

abbrev pub batch_claimed : String → String → WorkRow → WorkRow
batch_claimed worker now r = record r {
  state = running;
  claimed_by = some worker;
  claimed_at = some now;
  blocker_code = none;
  blocker_detail = none;
  updated_at = now;
}

-- the rows that a batch claim picks
unfoldable pub batch_rows : ℕ → Database → List WorkRow
batch_rows limit db = take limit (order_by batch_order (select (claimable db) db.work_items))

unfoldable pub claim_batch : String → ℤ → String → Database → Result (Database × List WorkRow)
unfolding batch_rows
claim_batch worker limit now db = do
  raise_if (ltb_ℤ limit (pos 1)) (value_error "batch limit must be positive")
  let ids = ids_of (batch_rows (pos_part limit) db)
  let db' = update_items (λ r. is_state r.state ready && id_in ids r) (batch_claimed worker now) db
  ok (db', order_by queue_order (select (id_in ids) db'.work_items))

-- `claimed_at < ?`, false where `claimed_at` is NULL
abbrev pub claimed_before : String → WorkRow → Bool
claimed_before cutoff r = elim r.claimed_at [ none ↦ false | some t ↦ text_lt t cutoff ]

-- `COALESCE(blocker_code,'') = 'awaiting_batch_evaluation'`
abbrev pub awaits_evaluation : WorkRow → Bool
awaits_evaluation r = holds "awaiting_batch_evaluation" r.blocker_code

abbrev pub has_finished_run : List Run → WorkRow → Bool
has_finished_run runs r =
    any (λ (run : Run). str_eq run.work_item_id r.id && str_eq run.status "finished") runs

-- `ORDER BY claimed_at, id`, with NULL first
unfoldable pub claim_order : WorkRow → WorkRow → Bool
claim_order a b = go a.claimed_at b.claimed_at
  where
    go : Option String → Option String → Bool
    go none none = text_le a.id b.id
    go none (some _) = true
    go (some _) none = false
    go (some s) (some t) =
        if text_lt s t then true else if str_eq s t then text_le a.id b.id else false

-- The columns of a claim that goes back to the queue.
abbrev pub released : String → String → String → WorkRow → WorkRow
released code detail now r = record r {
  state = ready;
  claimed_by = none;
  claimed_at = none;
  blocker_code = some code;
  blocker_detail = some detail;
  updated_at = now;
}

-- `for work_item_id in ids: INSERT INTO events …`
unfoldable pub add_events : Json → String → List String → Database → Database
add_events payload now [] db = db
add_events payload now (id ∷ ids) db =
    add_events payload now ids (add_item_event id "state_changed" payload now db)

abbrev pub is_empty {ℓ} : {A : Type ℓ} → List A → Bool
is_empty [] = true
is_empty (_ ∷ _) = false

unfoldable pub is_stale : String → List Run → WorkRow → Bool
is_stale cutoff runs r =
    is_state r.state running
    && claimed_before cutoff r
    && not (awaits_evaluation r)
    && not (has_finished_run runs r)

-- The result is the rows under "recoverable", and whether they were "applied".
unfoldable pub recover_stale_unexecuted_claims :
    String → Bool → String → Database → Database × (List WorkRow × Bool)
recover_stale_unexecuted_claims cutoff apply now db =
    let rows = order_by claim_order (select (is_stale cutoff db.runs) db.work_items) in
    let ids = ids_of rows in
    let payload = obj (
      field "from" (str "running")
        (field "to" (str "ready") (field "reason" (str "stale_claim_recovered") end))) in
    let detail : String = "stale execution claim had no durable run evidence" in
    let db' =
      update_items (λ r. id_in ids r && is_state r.state running)
        (released "stale_claim_recovered" detail now) db in
    if apply && not (is_empty rows)
    then (add_events payload now ids db', (rows, true))
    else (db, (rows, false))

unfoldable pub is_abandoned : String → String → WorkRow → Bool
is_abandoned worker cutoff r =
    is_state r.state running
    && holds worker r.claimed_by
    && claimed_before cutoff r
    && not (awaits_evaluation r)

unfoldable pub recover_abandoned_claims : String → String → String → Database → Database × ℕ
recover_abandoned_claims worker cutoff now db =
    let ids = ids_of (order_by claim_order (select (is_abandoned worker cutoff) db.work_items)) in
    let payload = obj (
      field "from" (str "running") (
        field "reason" (str "abandoned_claim")
          (field "to" (str "ready") (field "worker_id" (str worker) end)))) in
    let hit = λ (r : WorkRow). is_state r.state running && id_in ids r in
    let db' = update_items hit (released "abandoned_claim" "worker restarted after claim" now) db in
    if is_empty ids then (db, 0) else (add_events payload now ids db', count hit db.work_items)

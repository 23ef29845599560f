-- ===== src/Queue/Retries.antt =====
-- Deferred work of src/ats_lab/database_queue.py: `promote_due_retries`, `defer_infrastructure_retry` and
-- `defer_batch_analysis_retry`.
pub mod Due
use algorithmic_trading_stra.Base.{
  ℕ, String, Bool, false, not, ◌&&◌, none, some, str_eq, count, ◌||◌, suc, List, [], ◌∷◌, is_some,
  some_or, select, if◌then◌else◌,
}
use algorithmic_trading_stra.Base.Json.{Json.obj, Json.str, Json.bool, field, end}
use algorithmic_trading_stra.Base.Texts.{◌<>◌, text_le, strip}
use algorithmic_trading_stra.Base.Outcome.{
  Result, ok, value_error, key_error, ◌>>=◌, ◌>>◌, raise_if, or_raise,
}
use algorithmic_trading_stra.Models.{state_value, ready, running, waiting_retry, is_state}
use algorithmic_trading_stra.Queue.Rows.{WorkRow, Database, update_items, add_item_event, item_at}
use algorithmic_trading_stra.Queue.Claims.{awaits_evaluation}

-- `state='waiting_retry' AND retry_after IS NOT NULL AND retry_after <= now`
unfoldable pub is_due : String → WorkRow → Bool
is_due now r =
    is_state r.state waiting_retry && elim r.retry_after [ none ↦ false | some t ↦ text_le t now ]

abbrev pub promoted : String → WorkRow → WorkRow
promoted now r = record r { state = ready; retry_after = none; updated_at = now }

unfoldable pub promote_due_retries : String → Database → Database × ℕ
promote_due_retries now db =
    (update_items (is_due now) (promoted now) db, count (is_due now) db.work_items)

abbrev pub deferred : String → String → String → String → WorkRow → WorkRow
deferred code detail retry_after now r = record r {
  state = waiting_retry;
  retry_after = some retry_after;
  blocker_code = some code;
  blocker_detail = some detail;
  claimed_by = none;
  claimed_at = none;
  updated_at = now;
}

unfoldable pub defer_infrastructure_retry :
    String → String → String → String → String → Database → Result (Database × WorkRow)
defer_infrastructure_retry id code detail retry_after now db = do
  row ← or_raise (item_at id db.work_items) (key_error ("unknown work item: " <> id))
  raise_if (not (is_state row.state running))
      (value_error ("cannot defer infrastructure retry from " <> state_value row.state))
  let db' = update_items (λ r. str_eq r.id id) (deferred code detail retry_after now) db
  let payload = obj (field "attempt_charged" (bool false) (field "blocker_code" (str code) end))
  let db'' = add_item_event id "infrastructure_retry_deferred" payload now db'
  result ← or_raise (item_at id db''.work_items) (key_error id)
  ok (db'', result)

unfoldable pub defer_batch_analysis_retry :
    String → String → String → String → String → Database → Result (Database × WorkRow)
defer_batch_analysis_retry id code detail retry_after now db = do
  row ← or_raise (item_at id db.work_items) (key_error ("unknown work item: " <> id))
  raise_if (not (is_state row.state running) || not (awaits_evaluation row))
      (value_error ("work item is not awaiting batch evaluation: " <> id))
  let db' =
      update_items (λ r. str_eq r.id id)
        (λ r. record r { retry_after = some retry_after; updated_at = now }) db
  let payload = obj (
      field "attempt_charged" (bool false) (
        field "blocker_code" (str code)
          (field "detail" (str detail) (field "retry_after" (str retry_after) end))))
  let db'' = add_item_event id "analysis_retry_deferred" payload now db'
  result ← or_raise (item_at id db''.work_items) (key_error id)
  ok (db'', result)

-- `retry_after IS NOT NULL` on deferred work
abbrev pub has_schedule : WorkRow → Bool
has_schedule r = is_state r.state waiting_retry && is_some r.retry_after

-- The number reader and the clock arithmetic of `resolve_retry_after`, which are the standard library's:
-- whether `float(value)` reads a text, and the timestamp of that many seconds from now, or the ValueError
-- of a delay below zero.
pub record Delays : Type 0 where
  pub is_number : String → Bool
  pub resolve : String → Result String

-- one row of `repair_relative_retry_schedules`
unfoldable pub repair_row : Delays → String → WorkRow → Database × ℕ → Result (Database × ℕ)
repair_row delays now row (db, repaired) =
    let value = strip (some_or row.retry_after "") in
    if not (delays.is_number value)
    then ok (db, repaired)
    else (delays.resolve value >>= λ normalized. ok (
      add_item_event row.id "retry_schedule_normalized" (obj end) now (
          update_items (λ r. str_eq r.id row.id && is_state r.state waiting_retry)
            (λ r. record r { retry_after = some normalized; updated_at = now }) db),
      suc repaired,
    ))

unfoldable pub repair_each : Delays → String → List WorkRow → Database × ℕ → Result (Database × ℕ)
unfolding repair_row
repair_each delays now [] s = ok s
repair_each delays now (row ∷ rows) s = repair_row delays now row s >>= repair_each delays now rows

unfoldable pub repair_relative_retry_schedules : Delays → String → Database → Result (Database × ℕ)
unfolding repair_each
repair_relative_retry_schedules delays now db =
    repair_each delays now (select has_schedule db.work_items) (db, 0)

-- ===== src/Queue/Transitions.antt =====
-- Registration and the guarded transition: `upsert_work_item`, `_ensure_matching_work_item`,
-- `_transition_work_item_row` and `transition_work_item` of src/ats_lab/database_queue.py. `now` is
-- what `utc_now()` returns, and `same_json` is Python's `==` on decoded JSON.
pub mod Target
use algorithmic_trading_stra.Base.{
  ℕ, ◌+◌, String, Bool, true, false, not, Option, none, some, List, [], ◌∷◌, ◌++◌, str_eq,
  if◌then◌else◌, any,
}
use algorithmic_trading_stra.Base.Int.{ℤ, eqb_ℤ}
use algorithmic_trading_stra.Base.Json.{Json, Json.obj, Json.str, field, end}
use algorithmic_trading_stra.Base.Texts.{◌<>◌, join}
use algorithmic_trading_stra.Base.Outcome.{
  Result, ok, err, value_error, key_error, ◌>>=◌, ◌>>◌, or_raise,
}
use algorithmic_trading_stra.Models.{
  WorkState, state_value, scheduled, ready, waiting_retry, is_state,
}
use algorithmic_trading_stra.Queue.Rows.{WorkRow, Database, update_items, add_item_event, item_at}

-- The blocker columns and the retry time that a transition writes.
pub record Reason : Type 0 where
  pub blocker_code : Option String
  pub blocker_detail : Option String
  pub retry_after : Option String

abbrev pub no_reason : Reason
no_reason = record { blocker_code = none; blocker_detail = none; retry_after = none }

-- the columns that `_transition_work_item_row` sets
abbrev pub moved : WorkRow → WorkState → Reason → String → WorkRow → WorkRow
moved row target reason now r = record r {
  state = target;
  attempts = if is_state target waiting_retry then row.attempts + 1 else row.attempts;
  retry_after = reason.retry_after;
  blocker_code = reason.blocker_code;
  blocker_detail = reason.blocker_detail;
  claimed_by = none;
  claimed_at = none;
  updated_at = now;
}

unfoldable pub transition_work_item_row :
    WorkRow → WorkState → List WorkState → Reason → String → Database → Result (Database × WorkRow)
transition_work_item_row row target allowed_from reason now db =
    if is_state row.state target
    then ok (db, row)
    else if not (any (is_state row.state) allowed_from)
    then err (
        value_error (
          "cannot transition "
          <> row.id
          <> " from "
          <> state_value row.state
          <> " to "
          <> state_value target))
    else do
      let db' = update_items (λ r. str_eq r.id row.id) (moved row target reason now) db
      let payload =
          obj
            (field "from" (str (state_value row.state)) (field "to" (str (state_value target)) end))
      let db'' = add_item_event row.id "state_changed" payload now db'
      result ← or_raise (item_at row.id db''.work_items) (key_error row.id)
      ok (db'', result)

unfoldable pub transition_work_item :
    String → WorkState → List WorkState → Reason → String → Database → Result (Database × WorkRow)
transition_work_item id target allowed_from reason now db = do
  row ← or_raise (item_at id db.work_items) (key_error ("unknown work item: " <> id))
  transition_work_item_row row target allowed_from reason now db

-- models.WorkItem
pub record WorkItem : Type 0 where
  pub id : String
  pub experiment_id : String
  pub priority : ℤ
  pub state : WorkState
  pub dependencies : List String
  pub attempts : ℕ
  pub retry_after : Option String
  pub blocker_code : Option String
  pub blocker_detail : Option String
  pub specification : Json

abbrev same_texts : List String → List String → Bool
same_texts [] [] = true
same_texts (x ∷ xs) (y ∷ ys) = if str_eq x y then same_texts xs ys else false
same_texts _ _ = false

abbrev conflict : Bool → String → List String
conflict same name = if same then [] else name ∷ []

-- the INSERT of a new item
abbrev pub inserted : WorkItem → String → WorkRow
inserted item now = record {
  id = item.id;
  experiment_id = item.experiment_id;
  priority = item.priority;
  state = item.state;
  dependencies = item.dependencies;
  attempts = item.attempts;
  retry_after = item.retry_after;
  blocker_code = item.blocker_code;
  blocker_detail = item.blocker_detail;
  specification = item.specification;
  claimed_by = none;
  claimed_at = none;
  created_at = now;
  updated_at = now;
}

module _ (same_json : Json → Json → Bool) where
  unfoldable pub conflicts : WorkRow → WorkItem → List String
  conflicts row item =
      conflict (str_eq row.experiment_id item.experiment_id) "experiment_id"
      ++ conflict (eqb_ℤ row.priority item.priority) "priority"
      ++ conflict (same_texts row.dependencies item.dependencies) "dependencies"
      ++ conflict (same_json row.specification item.specification) "specification"

  unfoldable pub ensure_matching_work_item : WorkRow → WorkItem → Result (Unit {0})
  unfolding conflicts
  ensure_matching_work_item row item = elim (conflicts row item) [
    | [] ↦ ok tt
    | c ∷ cs ↦ err (
        value_error
          ("work item " <> item.id <> " already exists with different " <> join ", " (c ∷ cs)))
  ]

  unfoldable pub upsert_existing :
      WorkRow → WorkItem → String → Database → Result (Database × WorkRow)
  unfolding ensure_matching_work_item
  upsert_existing existing item now db = do
    ensure_matching_work_item existing item
    if is_state existing.state item.state
        then ok (db, existing)
        else transition_work_item_row existing ready (scheduled ∷ []) no_reason now db

  unfoldable pub upsert_found :
      Option WorkRow → WorkItem → String → Database → Result (Database × WorkRow)
  upsert_found none item now db =
      ok (record db { work_items = db.work_items ++ inserted item now ∷ [] }, inserted item now)
  upsert_found (some existing) item now db = upsert_existing existing item now db

  unfoldable pub upsert_work_item : WorkItem → String → Database → Result (Database × WorkRow)
  unfolding upsert_found upsert_existing
  upsert_work_item item now db = upsert_found (item_at item.id db.work_items) item now db

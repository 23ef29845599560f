-- ===== src/Queue/Pending.antt =====
-- The executions that await their analysis: `pending_batch_evaluation` of src/ats_lab/database_queue.py.
pub mod Awaited
use algorithmic_trading_stra.Base.{
  String, Bool, true, false, not, ◌&&◌, ◌||◌, Option, none, some, List, [], ◌∷◌, ◌++◌, str_eq,
  select, order_by, some_or, if◌then◌else◌,
}
use algorithmic_trading_stra.Base.Int.{ltb_ℤ, eqb_ℤ}
use algorithmic_trading_stra.Base.Texts.{text_le, text_lt}
use algorithmic_trading_stra.Models.{running, is_state}
use algorithmic_trading_stra.Queue.Rows.{WorkRow, Experiment, Run, Database, holds, queue_order}

-- a row of the join, by the rows that it joins
pub record Pending : Type 0 where
  pub item : WorkRow
  pub experiment : Experiment
  pub run : Run

-- `COALESCE(finished_at,'')`
abbrev pub finish_time : Run → String
finish_time r = some_or r.finished_at ""

-- `ORDER BY COALESCE(finished_at,'') DESC, rowid DESC LIMIT 1`, where the rows stand by rowid
abbrev pub later_run : Run → Option Run → Option Run
later_run r none = some r
later_run r (some s) = if text_lt (finish_time s) (finish_time r) then some r else some s

unfoldable pub latest_run : String → List Run → Option Run
latest_run id [] = none
latest_run id (r ∷ rs) =
    let rest = latest_run id rs in if str_eq r.work_item_id id then later_run r rest else rest

-- `retry_after IS NULL OR retry_after<=?`
abbrev pub is_open : String → WorkRow → Bool
is_open now r = elim r.retry_after [ none ↦ true | some t ↦ text_le t now ]

-- the argument `worker_id`, which an empty text leaves out too
abbrev pub is_owned : Option String → WorkRow → Bool
is_owned none r = true
is_owned (some worker) r = str_eq worker "" || holds worker r.claimed_by

unfoldable pub is_pending : Option String → String → WorkRow → Bool
is_pending worker now r =
    is_state r.state running
    && holds "awaiting_batch_evaluation" r.blocker_code
    && is_open now r
    && is_owned worker r

abbrev pub pair_with : WorkRow → Run → List Experiment → List Pending
pair_with item run [] = []
pair_with item run (e ∷ es) =
    record { item = item; experiment = e; run = run } ∷ pair_with item run es

abbrev pub with_latest : WorkRow → Option Run → List Experiment → List Pending
with_latest item none es = []
with_latest item (some run) es = pair_with item run es

unfoldable pub join_each : Database → List WorkRow → List Pending
unfolding latest_run
join_each db [] = []
join_each db (w ∷ ws) =
    with_latest w (latest_run w.id db.runs)
      (select (λ (e : Experiment). str_eq e.id w.experiment_id) db.experiments)
    ++ join_each db ws

-- `ORDER BY blocker_detail, priority, created_at, id`, with NULL first
abbrev pub batch_first : Option String → Option String → Bool → Bool
batch_first none none same = same
batch_first none (some _) same = true
batch_first (some _) none same = false
batch_first (some a) (some b) same =
    if text_lt a b then true else if str_eq a b then same else false

abbrev pub pending_order : Pending → Pending → Bool
pending_order a b =
    batch_first a.item.blocker_detail b.item.blocker_detail (queue_order a.item b.item)

unfoldable pub pending_batch_evaluation : Option String → String → Database → List Pending
unfolding join_each
pending_batch_evaluation worker now db =
    order_by pending_order (join_each db (select (is_pending worker now) db.work_items))

-- ===== src/Recovery/Recovered.antt =====
-- What `TerminalFailureRecovery.recover` of src/ats_lab/execution_disposition.py leaves.
use algorithmic_trading_stra.Base.{String, true, ◌||◌, some, List, ◌≡◌, str_eq, update_where}
use algorithmic_trading_stra.Base.Json.{Json.obj, Json.str}
use algorithmic_trading_stra.Models.{running, blocked, is_state}
use algorithmic_trading_stra.Queue.Rows.{WorkRow, item_at}
use algorithmic_trading_stra.Queue.Finish.{failing_item}

-- the item is there, running or blocked
abbrev Live : List WorkRow → String → Type 0
Live items id =
    (w : WorkRow) × (item_at id items ≡ some w)
    × ((is_state w.state running || is_state w.state blocked) ≡ true)

-- the item awaits the evaluation of the batch, in the worker's hands
pub record InAnalysis (worker batch_id : String) (items : List WorkRow) (id : String) : Type 0 where
  pub item : WorkRow
  pub here : item_at id items ≡ some item
  pub runs : item.state ≡ running
  pub owned : item.claimed_by ≡ some worker
  pub waits : item.blocker_code ≡ some "awaiting_batch_evaluation"
  pub batch : item.blocker_detail ≡ some batch_id

module _ (worker batch_id now : String) where
  abbrev marked : String → List WorkRow → List WorkRow
  marked id = update_where (λ x. str_eq x.id id) (failing_item batch_id worker now)

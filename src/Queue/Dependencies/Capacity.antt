-- ===== src/Queue/Dependencies/Capacity.antt =====
-- `promote_scheduled_runnable` fills the ready capacity and never goes past it.
use algorithmic_trading_stra.Base.{
  ℕ, ◌+◌, ◌-◌, ◌≤◌, String, ◌&&◌, List, [], ◌∷◌, select, take, order_by, count, update_where, max,
  arith,
}
use algorithmic_trading_stra.Models.{scheduled, is_state}
use algorithmic_trading_stra.Queue.Rows.{WorkRow, Database, is_active, id_in, ids_of, queue_order}
use algorithmic_trading_stra.Queue.Invariant.{IsValid}
use algorithmic_trading_stra.Queue.Picks.{count-id_in-le, length-ids_of-take}
use algorithmic_trading_stra.Queue.Dependencies.{is_runnable, promoted, fill_capacity}

count-promoted :
    (now : String) (ids : List String) (xs : List WorkRow)
    → count is_active
        (update_where (λ r. is_state r.state scheduled && id_in ids r) (promoted now) xs)
      ≤ count is_active xs + count (id_in ids) xs
unfolding is_active
count-promoted now ids [] = omega arith
count-promoted now ids (x ∷ xs) = ground (arith, count-promoted now ids xs)

-- In a valid table, the promotion to ready leaves at most `active_limit` items ready or running, or as
-- many as there were before where that was more.
pub fill_capacity-le :
    (active_limit : ℕ) (now : String) (db : Database)
    → IsValid db.work_items
    → count is_active (fill_capacity active_limit now db).0.work_items
      ≤ max active_limit (count is_active db.work_items)
unfolding fill_capacity
fill_capacity-le active_limit now db v =
    let room = active_limit - count is_active db.work_items in
    let rows = order_by queue_order (select (is_runnable db) db.work_items) in
    omega (
      arith,
      count-promoted now (ids_of (take room rows)) db.work_items,
      count-id_in-le (ids_of (take room rows)) db.work_items v.keys,
      length-ids_of-take room rows,
    )

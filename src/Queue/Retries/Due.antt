-- ===== src/Queue/Retries/Due.antt =====
-- What `promote_due_retries` of src/ats_lab/database_queue.py leaves and counts.
use algorithmic_trading_stra.Base.{
  ◌+◌, String, false, ◌≡◌, refl, List, [], ◌∷◌, any, count, update_where, arith,
}
use algorithmic_trading_stra.Models.{ready, is_state}
use algorithmic_trading_stra.Queue.Rows.{WorkRow, Database}
use algorithmic_trading_stra.Queue.Retries.{is_due, promoted, promote_due_retries}

none_due :
    (now : String) (xs : List WorkRow)
    → any (is_due now) (update_where (is_due now) (promoted now) xs) ≡ false
unfolding is_due
none_due now [] = refl
none_due now (x ∷ xs) = ground (arith, none_due now xs)

count_ready :
    (now : String) (xs : List WorkRow)
    → count (λ r. is_state r.state ready) (update_where (is_due now) (promoted now) xs)
      ≡ count (λ r. is_state r.state ready) xs + count (is_due now) xs
unfolding is_due
count_ready now [] = refl
count_ready now (x ∷ xs) = ground (arith, count_ready now xs)

-- After the promotion no retry is due any more, and the ready items are those that were ready and as many
-- more as the number returned.
pub promote_due_retries_lem :
    (now : String) (db : Database)
    → (any (is_due now) (promote_due_retries now db).0.work_items ≡ false)
      × (count (λ r. is_state r.state ready) (promote_due_retries now db).0.work_items
          ≡ count (λ r. is_state r.state ready) db.work_items + (promote_due_retries now db).1)
unfolding promote_due_retries
promote_due_retries_lem now db = (none_due now db.work_items, count_ready now db.work_items)

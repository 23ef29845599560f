-- ===== src/Queue/Keeps/Retries.antt =====
-- Deferred work and batch evaluation: each operation keeps the table valid and changes its items legally.
use algorithmic_trading_stra.Base.{
  ℕ, List, [], ◌∷◌, some, some_or, select, String, true, not, str_eq, ◌≡◌, refl, arith, count, ◌==◌,
  ◌||◌,
}
use algorithmic_trading_stra.Base.Texts.{is_blank, strip}
use algorithmic_trading_stra.Base.Outcome.{Result, ok, err, ◌>>=◌}
use algorithmic_trading_stra.Models.{running, waiting_retry, finished, is_state}
use algorithmic_trading_stra.Queue.Rows.{WorkRow, Database, item_at}
use algorithmic_trading_stra.Queue.Invariant.{
  IsValid, Advance, Advances, Advance-refl, Advance-trans,
}
use algorithmic_trading_stra.Queue.Rules.{
  guarded-Advance, &&-left, &&-right, idle-IsSound, by_id-Advance, read-Advances, guard-Advances,
  or_raise-Advances, if-Advances, bind-Advances,
}
use algorithmic_trading_stra.Queue.Transitions.{}
use algorithmic_trading_stra.Queue.Claims.{awaits_evaluation}
use algorithmic_trading_stra.Queue.Blockers.{}
use algorithmic_trading_stra.Queue.Retries.{
  Delays, repair_row, repair_each, has_schedule, repair_relative_retry_schedules, deferred,
  promoted, is_due, promote_due_retries, defer_infrastructure_retry, defer_batch_analysis_retry,
}
use algorithmic_trading_stra.Queue.Evaluation.{
  awaiting, is_running_item, mark_awaiting_evaluation, reopened, requeue_finished_evaluation,
  finished_run, metrics_of,
}

pub promote_due_retries-Advance :
    (now : String) (db : Database)
    → IsValid db.work_items
    → Advance db.work_items (promote_due_retries now db).0.work_items
unfolding promote_due_retries is_due
promote_due_retries-Advance now db v = guarded-Advance (promoted now) _ db.work_items v λ r h.
    let s : is_state r.state waiting_retry ≡ true = &&-left _ _ h in
    idle-IsSound r (promoted now r) (ground arith) (ground arith) refl

repair_row-Advances :
    (delays : Delays) (now : String) (row : WorkRow) (s : Database × ℕ)
    → IsValid s.0.work_items
    → Advances s.0.work_items (repair_row delays now row s)
unfolding repair_row
repair_row-Advances delays now row (db, n) v =
    if-Advances _ (not (delays.is_number (strip (some_or row.retry_after "")))) _ _
      (λ _. Advance-refl v)
      (λ _. bind-Advances _ (delays.resolve (strip (some_or row.retry_after ""))) _ λ time _.
        guarded-Advance (λ r. record r { retry_after = some time; updated_at = now }) _
          db.work_items v
          λ r h.
            let s : is_state r.state waiting_retry ≡ true = &&-right (str_eq r.id row.id) _ h in
            idle-IsSound r _ (ground arith) (ground arith) refl)

repair_each-Advances :
    (delays : Delays) (now : String) (rows : List WorkRow) (s : Database × ℕ)
    → IsValid s.0.work_items
    → Advances s.0.work_items (repair_each delays now rows s)
unfolding repair_each
repair_each-Advances delays now [] s v = Advance-refl v
repair_each-Advances delays now (row ∷ rows) s v =
    go (repair_row delays now row s) (repair_row-Advances delays now row s v)
      (λ s' v'. repair_each-Advances delays now rows s' v')
  where
    further :
        (s' : Database × ℕ) (r : Result (Database × ℕ))
        → Advance s.0.work_items s'.0.work_items
        → Advances s'.0.work_items r
        → Advances s.0.work_items r
    further s' (ok t) p q = Advance-trans p (λ _. q)
    further s' (err e) p q = tt

    go :
        (r : Result (Database × ℕ))
        → Advances s.0.work_items r
        → ((s' : Database × ℕ)
            → IsValid s'.0.work_items
            → Advances s'.0.work_items (repair_each delays now rows s'))
        → Advances s.0.work_items (r >>= repair_each delays now rows)
    go (err e) p later = tt
    go (ok s') p later = further s' (repair_each delays now rows s') p (later s' p.valid)

pub repair_relative_retry_schedules-Advances :
    (delays : Delays) (now : String) (db : Database)
    → IsValid db.work_items
    → Advances db.work_items (repair_relative_retry_schedules delays now db)
unfolding repair_relative_retry_schedules
repair_relative_retry_schedules-Advances delays now db v =
    repair_each-Advances delays now (select has_schedule db.work_items) (db, 0) v

pub defer_infrastructure_retry-Advances :
    (id code detail retry_after now : String) (db : Database)
    → IsValid db.work_items
    → Advances db.work_items (defer_infrastructure_retry id code detail retry_after now db)
unfolding defer_infrastructure_retry
defer_infrastructure_retry-Advances id code detail retry_after now db v =
    or_raise-Advances _ (item_at id db.work_items) _ _ λ row e.
      guard-Advances _ (not (is_state row.state running)) _ _ λ live. read-Advances _ _ _ (
        by_id-Advance (deferred code detail retry_after now) id row db.work_items v e
          (ground arith))

pub defer_batch_analysis_retry-Advances :
    (id code detail retry_after now : String) (db : Database)
    → IsValid db.work_items
    → Advances db.work_items (defer_batch_analysis_retry id code detail retry_after now db)
unfolding defer_batch_analysis_retry
defer_batch_analysis_retry-Advances id code detail retry_after now db v =
    or_raise-Advances _ (item_at id db.work_items) _ _ λ row e.
      guard-Advances _ (not (is_state row.state running) || not (awaits_evaluation row)) _ _
        λ live. read-Advances _ _ _ (by_id-Advance _ id row db.work_items v e (ground arith))

pub mark_awaiting_evaluation-Advances :
    (id batch_id now : String) (db : Database)
    → IsValid db.work_items
    → Advances db.work_items (mark_awaiting_evaluation id batch_id now db)
unfolding mark_awaiting_evaluation
mark_awaiting_evaluation-Advances id batch_id now db v =
    guard-Advances _ (not (count (is_running_item id) db.work_items == 1)) _ _ λ _.
      guarded-Advance (awaiting batch_id now) _ db.work_items v λ r h.
        let s : is_state r.state running ≡ true = &&-right (str_eq r.id id) _ h in ground arith

pub requeue_finished_evaluation-Advances :
    (id worker reason batch_id now : String) (db : Database)
    → IsValid db.work_items
    → Advances db.work_items (requeue_finished_evaluation id worker reason batch_id now db)
unfolding requeue_finished_evaluation
requeue_finished_evaluation-Advances id worker reason batch_id now db v =
    guard-Advances _ (is_blank reason) _ _ λ _.
      or_raise-Advances _ (item_at id db.work_items) _ _ λ row e.
        guard-Advances _ (not (is_state row.state finished)) _ _ λ _.
          or_raise-Advances _ (finished_run id db.runs) _ _ λ run _.
            guard-Advances _ (not (metrics_of run)) _ _ λ _. read-Advances _ _ _ (
              guarded-Advance (reopened worker batch_id now) _ db.work_items v λ r h.
                let s : is_state r.state finished ≡ true = &&-right (str_eq r.id id) _ h in
                ground arith)

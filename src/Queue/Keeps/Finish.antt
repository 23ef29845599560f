-- ===== src/Queue/Keeps/Finish.antt =====
-- The end of an execution and the repair of its routes: each operation keeps the table valid and changes
-- its items legally.
use algorithmic_trading_stra.Base.{
  String, true, not, Option, none, some, ◌≡◌, ap, refl, arith, str_eq, any, ◌||◌, find, count, ◌==◌,
  sym,
}
use algorithmic_trading_stra.Base.Int.{ℤ}
use algorithmic_trading_stra.Base.Json.{Json}
use algorithmic_trading_stra.Base.Outcome.{Result, ok, err, ◌>>=◌, >>=-eq-ok, raise_if-ok, ok-inj}
use algorithmic_trading_stra.Base.Texts.{is_blank}
use algorithmic_trading_stra.Models.{Evaluation, running, blocked, is_state}
use algorithmic_trading_stra.Queue.Rows.{WorkRow, Run, Checkpoint, Recovery, Database, item_at}
use algorithmic_trading_stra.Queue.Invariant.{
  IsValid, Advance, Advances, IsSound, Advance-refl, Advance-trans,
}
use algorithmic_trading_stra.Queue.Rules.{
  by_id-Advance, guard-Advances, bind-Advances, or_raise-Advances,
}
use algorithmic_trading_stra.Queue.Revisions.{}
use algorithmic_trading_stra.Queue.Finish.{
  Projections, finalize_batch_evaluation, finished_item, failing_item, upsert_run,
  add_failure_run_awaiting_evaluation,
}
use algorithmic_trading_stra.Queue.Finish.Finished.{finalize_batch_evaluation-Finished}
use algorithmic_trading_stra.Queue.Routes.{
  is_settled, check_routes, reroute, invalidate, record_recovery, delete_session, changed_session,
  session_of, object_of, target_state, after_reroute, repair_work_item_data_routes, repaired,
}
use algorithmic_trading_stra.Queue.Dependencies.{run_reconcile_hpo}
use algorithmic_trading_stra.Queue.Keeps.Dependencies.{promote_scheduled_runnable-Advance}

running-IsSound :
    (now : String) (row : WorkRow) → row.state ≡ running → IsSound row (finished_item now row)
running-IsSound now row h =
    let r : is_state row.state running ≡ true = ap (λ s. is_state s running) h in ground arith

pub finalize_batch_evaluation-Advances :
    (projections : Projections) (evaluation : Evaluation) (id : Option String) (now : String)
    (db : Database)
    → IsValid db.work_items
    → Advances db.work_items (finalize_batch_evaluation projections evaluation id now db)
finalize_batch_evaluation-Advances projections evaluation id now db v =
    go (finalize_batch_evaluation projections evaluation id now db) refl
  where
    go :
        (m : Result (Database × WorkRow))
        → finalize_batch_evaluation projections evaluation id now db ≡ m
        → Advances db.work_items m
    go (err e) h = tt
    go (ok (db', r)) h =
        let f = finalize_batch_evaluation-Finished evaluation projections id now db db' r v h in
        rw f.table (
          by_id-Advance (finished_item now) f.row.id f.row db.work_items v f.awaited.here
            (running-IsSound now f.row f.awaited.runs))

pub add_failure_run-Advances :
    (refresh : String → Database → Result (Unit {0})) (run : Run) (batch_id worker now : String)
    (db : Database)
    → IsValid db.work_items
    → Advances db.work_items
        (add_failure_run_awaiting_evaluation refresh run batch_id worker now db)
unfolding add_failure_run_awaiting_evaluation
add_failure_run-Advances refresh run batch_id worker now db v =
    guard-Advances _ (str_eq run.work_item_id "") _ _ λ _.
      or_raise-Advances _ (item_at run.work_item_id db.work_items) _ _ λ row e.
        guard-Advances _ (not (is_state row.state running || is_state row.state blocked)) _ _
          λ live. bind-Advances _ (refresh run.id (upsert_run run db)) _ λ _ _.
            by_id-Advance (failing_item batch_id worker now) run.work_item_id row db.work_items v e
              (ground arith)

-- The checkpoint and its recovery are other tables.
invalidate-items :
    (id : String) (c : Option Checkpoint) (now : String) (db db' : Database)
    → invalidate id c now db ≡ ok db'
    → db'.work_items ≡ db.work_items
unfolding invalidate record_recovery delete_session
invalidate-items id none now db db' e = cc
invalidate-items id (some c) now db db' e =
    go (find (λ (r : Recovery). str_eq r.work_item_id id) db.direct_execution_recoveries) e
  where
    deleted : (d : Database) → delete_session id d ≡ ok db' → db'.work_items ≡ d.work_items
    deleted d h =
        let q = raise_if-ok (not (count (session_of id) d.direct_execution_sessions == 1)) _ _ h in
        cc

    go :
        (o : Option Recovery)
        → (record_recovery c o now db >>= delete_session id) ≡ ok db'
        → db'.work_items ≡ db.work_items
    go none h = deleted _ h
    go (some r) h =
        let (d, q, g) = >>=-eq-ok (record_recovery c (some r) now db) _ h in
        let same : d ≡ db = sym (ok-inj (raise_if-ok (changed_session c r) _ (ok db) q)) in
        rw (sym same) (deleted d g)

reroute-Advances :
    (id : String) (data_routes : Json) (reason now : String) (db : Database)
    → IsValid db.work_items
    → Advances db.work_items (reroute id data_routes reason now db)
unfolding reroute target_state
reroute-Advances id data_routes reason now db v = guard-Advances _ (is_blank id) _ _ λ _.
    guard-Advances _ (is_blank reason) _ _ λ _. bind-Advances _ (check_routes data_routes) _ λ _ _.
      or_raise-Advances _ (item_at id db.work_items) _ _ λ row e.
        guard-Advances _ (is_settled row.state) _ _ λ live.
          guard-Advances _ (any (λ (r : Run). str_eq r.work_item_id id) db.runs) _ _ λ _.
            bind-Advances _
              (invalidate id (find (session_of id) db.direct_execution_sessions) now db) _
              λ db₁ q. bind-Advances _ (object_of row.specification) _ λ s _.
                rw (invalidate-items id _ now db db₁ q)
                  (by_id-Advance _ id row db.work_items v e (ground arith))

module _ (reconcile_hpo : Option (String → Database → Database × Result (Unit {0})))
    (hpo : (now : String) (db : Database)
      → IsValid db.work_items
      → Advance db.work_items (run_reconcile_hpo reconcile_hpo now db).0.work_items) where
  pub repair_work_item_data_routes-Advance :
      (id : String) (data_routes : Json) (reason : String) (limit : ℤ) (now : String)
      (db : Database)
      → IsValid db.work_items
      → Advance db.work_items
          (repair_work_item_data_routes reconcile_hpo id data_routes reason limit now
            db).0.work_items
  unfolding repair_work_item_data_routes after_reroute repaired
  repair_work_item_data_routes-Advance id data_routes reason limit now db v =
      go (reroute id data_routes reason now db) (reroute-Advances id data_routes reason now db v)
    where
      go :
          (r : Result (Database × Unit {0}))
          → Advances db.work_items r
          → Advance db.work_items (after_reroute reconcile_hpo id limit now db r).0.work_items
      go (ok (db', u)) p =
          Advance-trans p (promote_scheduled_runnable-Advance reconcile_hpo hpo limit now db')
      go (err e) p = Advance-refl v

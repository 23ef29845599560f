-- ===== src/Queue/Commands.antt =====
-- A history of the queue: the calls that the program makes of it, in any order and at any times. A
-- call that raises rolls its transaction back, and the history goes on.
use algorithmic_trading_stra.Base.{String, Bool, false, Option, List, [], ◌∷◌, ◌≡◌, any}
use algorithmic_trading_stra.Base.Int.{ℤ}
use algorithmic_trading_stra.Base.Json.{Json}
use algorithmic_trading_stra.Base.Outcome.{Result, ok, err}
use algorithmic_trading_stra.Models.{Evaluation, WorkState, archived, is_state}
use algorithmic_trading_stra.Queue.Rows.{Run, Database}
use algorithmic_trading_stra.Queue.Invariant.{
  IsValid, Advance, Advances, Advance-refl, Advance-trans,
}
use algorithmic_trading_stra.Queue.Transitions.{
  WorkItem, Reason, upsert_work_item, transition_work_item,
}
use algorithmic_trading_stra.Queue.Claims.{
  claim_next, claim_batch, recover_stale_unexecuted_claims, recover_abandoned_claims,
}
use algorithmic_trading_stra.Queue.Blockers.{
  resolve_blocked_work_item, rectify_blocked_work_item, archive_scheduled_dependents,
  mark_unroutable_hpo_requirements_pending,
}
use algorithmic_trading_stra.Queue.Retries.{
  Delays, repair_relative_retry_schedules, promote_due_retries, defer_infrastructure_retry,
  defer_batch_analysis_retry,
}
use algorithmic_trading_stra.Queue.Evaluation.{
  mark_awaiting_evaluation, requeue_finished_evaluation,
}
use algorithmic_trading_stra.Queue.Dependencies.{
  reconcile_scheduled_dependencies, promote_scheduled_runnable, retry_blocked_work_item,
}
use algorithmic_trading_stra.Queue.Finish.{
  Projections, finalize_batch_evaluation, add_failure_run_awaiting_evaluation,
}
use algorithmic_trading_stra.Queue.Routes.{repair_work_item_data_routes}
use algorithmic_trading_stra.Queue.Validations.{reconcile_hpo, reconcile_hpo-Advance}
use algorithmic_trading_stra.Queue.Keeps

pub data Command : Type 0 where
  upsert : WorkItem → Command
  transition : String → WorkState → List WorkState → Reason → Command
  next_claim : String → Command
  batch_claim : String → ℤ → Command
  mark_awaiting : String → String → Command
  defer_analysis : String → String → String → String → Command
  defer_infrastructure : String → String → String → String → Command
  archive_dependents : String → String → Command
  requeue_evaluation : String → String → String → String → Command
  recover_stale : String → Bool → Command
  recover_abandoned : String → String → Command
  resolve : String → String → String → List String → Command
  retry : String → String → ℤ → Command
  rectify : String → String → Command
  promote_due : Command
  repair_schedules : Command
  promote_runnable : ℤ → Command
  reconcile : ℤ → Command
  mark_unroutable : Command
  finalize : Evaluation → Option String → Command
  fail_run : Run → String → String → Command
  repair_routes : String → Json → String → ℤ → Command

-- Callers never let a transition start from `archived`.
abbrev pub IsAllowed : Command → Type 0
IsAllowed (transition _ _ allowed _) = any (is_state archived) allowed ≡ false
IsAllowed _ = Unit

abbrev pub committed {ℓ} : {A : Type ℓ} → Database → Result (Database × A) → Database
committed db (ok (db', _)) = db'
committed db (err _) = db

module _ (same_json : Json → Json → Bool) (projections : Projections) (delays : Delays) where
  unfoldable pub execute : Command → String → Database → Database
  execute (upsert item) now db = committed db (upsert_work_item same_json item now db)
  execute (transition id target allowed reason) now db =
      committed db (transition_work_item id target allowed reason now db)
  execute (next_claim worker) now db = (claim_next worker now db).0
  execute (batch_claim worker limit) now db = committed db (claim_batch worker limit now db)
  execute (mark_awaiting id batch) now db = committed db (mark_awaiting_evaluation id batch now db)
  execute (defer_analysis id code detail time) now db =
      committed db (defer_batch_analysis_retry id code detail time now db)
  execute (defer_infrastructure id code detail time) now db =
      committed db (defer_infrastructure_retry id code detail time now db)
  execute (archive_dependents id reason) now db = (archive_scheduled_dependents id reason now db).0
  execute (requeue_evaluation id worker reason batch) now db =
      committed db (requeue_finished_evaluation id worker reason batch now db)
  execute (recover_stale cutoff apply) now db =
      (recover_stale_unexecuted_claims cutoff apply now db).0
  execute (recover_abandoned worker cutoff) now db =
      (recover_abandoned_claims worker cutoff now db).0
  execute (resolve id code detail evidence) now db =
      committed db (resolve_blocked_work_item id code detail evidence now db)
  execute (retry id reason limit) now db =
      (retry_blocked_work_item reconcile_hpo id reason limit now db).0
  execute (rectify id reason) now db = committed db (rectify_blocked_work_item id reason now db)
  execute promote_due now db = (promote_due_retries now db).0
  execute repair_schedules now db = committed db (repair_relative_retry_schedules delays now db)
  execute (promote_runnable limit) now db =
      (promote_scheduled_runnable reconcile_hpo limit now db).0
  execute (reconcile limit) now db = (reconcile_scheduled_dependencies limit now db).0
  execute mark_unroutable now db = (mark_unroutable_hpo_requirements_pending now db).0
  execute (finalize evaluation id) now db =
      committed db (finalize_batch_evaluation projections evaluation id now db)
  execute (fail_run r batch worker) now db =
      committed db
        (add_failure_run_awaiting_evaluation projections.refresh_run_evidence r batch worker now db)
  execute (repair_routes id routes reason limit) now db =
      (repair_work_item_data_routes reconcile_hpo id routes reason limit now db).0

  -- a history: commands with the times at which they run
  unfoldable pub run : List (Command × String) → Database → Database
  run [] db = db
  run ((c, now) ∷ history) db = run history (execute c now db)

abbrev pub AllAllowed : List (Command × String) → Type 0
AllAllowed [] = Unit
AllAllowed ((c, _) ∷ history) = IsAllowed c × AllAllowed history

committed-Advance {ℓ} :
    {A : Type ℓ} (db : Database) (r : Result (Database × A))
    → IsValid db.work_items
    → Advances db.work_items r
    → Advance db.work_items (committed db r).work_items
committed-Advance db (ok (db', a)) v h = h
committed-Advance db (err e) v h = Advance-refl v

module _ (same_json : Json → Json → Bool) (projections : Projections) (delays : Delays) where
  execute-Advance :
      (c : Command) (now : String) (db : Database)
      → IsAllowed c
      → IsValid db.work_items
      → Advance db.work_items (execute same_json projections delays c now db).work_items
  unfolding execute
  execute-Advance (upsert item) now db a v =
      committed-Advance db _ v (Keeps.upsert_work_item-Advances same_json item now db v)
  execute-Advance (transition id target allowed reason) now db a v =
      committed-Advance db _ v
        (Keeps.transition_work_item-Advances id target allowed reason now db v a)
  execute-Advance (next_claim worker) now db a v = Keeps.claim_next-Advance worker now db v
  execute-Advance (batch_claim worker limit) now db a v =
      committed-Advance db _ v (Keeps.claim_batch-Advances worker limit now db v)
  execute-Advance (mark_awaiting id batch) now db a v =
      committed-Advance db _ v (Keeps.mark_awaiting_evaluation-Advances id batch now db v)
  execute-Advance (defer_analysis id code detail time) now db a v =
      committed-Advance db _ v
        (Keeps.defer_batch_analysis_retry-Advances id code detail time now db v)
  execute-Advance (defer_infrastructure id code detail time) now db a v =
      committed-Advance db _ v
        (Keeps.defer_infrastructure_retry-Advances id code detail time now db v)
  execute-Advance (archive_dependents id reason) now db a v =
      Keeps.archive_scheduled_dependents-Advance id reason now db v
  execute-Advance (requeue_evaluation id worker reason batch) now db a v =
      committed-Advance db _ v
        (Keeps.requeue_finished_evaluation-Advances id worker reason batch now db v)
  execute-Advance (recover_stale cutoff apply) now db a v =
      Keeps.recover_stale-Advance cutoff apply now db v
  execute-Advance (recover_abandoned worker cutoff) now db a v =
      Keeps.recover_abandoned-Advance worker cutoff now db v
  execute-Advance (resolve id code detail evidence) now db a v =
      committed-Advance db _ v (Keeps.resolve_blocked-Advances id code detail evidence now db v)
  execute-Advance (retry id reason limit) now db a v =
      Keeps.retry_blocked_work_item-Advance reconcile_hpo reconcile_hpo-Advance id reason limit now
        db v
  execute-Advance (rectify id reason) now db a v =
      committed-Advance db _ v (Keeps.rectify_blocked-Advances id reason now db v)
  execute-Advance promote_due now db a v = Keeps.promote_due_retries-Advance now db v
  execute-Advance repair_schedules now db a v =
      committed-Advance db _ v (Keeps.repair_relative_retry_schedules-Advances delays now db v)
  execute-Advance (promote_runnable limit) now db a v =
      Keeps.promote_scheduled_runnable-Advance reconcile_hpo reconcile_hpo-Advance limit now db v
  execute-Advance (reconcile limit) now db a v =
      Keeps.reconcile_scheduled_dependencies-Advance limit now db v
  execute-Advance mark_unroutable now db a v = Keeps.mark_unroutable-Advance now db v
  execute-Advance (finalize evaluation id) now db a v =
      committed-Advance db _ v
        (Keeps.finalize_batch_evaluation-Advances projections evaluation id now db v)
  execute-Advance (fail_run r batch worker) now db a v =
      committed-Advance db _ v
        (Keeps.add_failure_run-Advances projections.refresh_run_evidence r batch worker now db v)
  execute-Advance (repair_routes id routes reason limit) now db a v =
      Keeps.repair_work_item_data_routes-Advance reconcile_hpo reconcile_hpo-Advance id routes
        reason limit now db v

  -- From a valid table, any history of the calls of `Command`, in which no transition may start from
  -- `archived`, leads to a valid table (ids are distinct, and only running items carry a claim), in which
  -- each item of the first table stands in its place with its id, experiment, priority, dependencies and
  -- creation time, and each that was archived is unchanged.
  pub run-Advance :
      (history : List (Command × String)) (db : Database)
      → AllAllowed history
      → IsValid db.work_items
      → Advance db.work_items (run same_json projections delays history db).work_items
  unfolding run
  run-Advance [] db a v = Advance-refl v
  run-Advance ((c, now) ∷ history) db a v =
      Advance-trans (execute-Advance c now db a.0 v)
        (run-Advance history (execute same_json projections delays c now db) a.1)

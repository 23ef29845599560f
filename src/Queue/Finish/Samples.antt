-- ===== src/Queue/Finish/Samples.antt =====
-- One item that awaits its verdict, on which the end of an execution is run.
use algorithmic_trading_stra.Base.{String, true, some, none, [], ◌∷◌, ◌≡◌, refl, any, str_eq}
use algorithmic_trading_stra.Base.Json.{Json.obj, Json.num, end, field}
use algorithmic_trading_stra.Models.{Evaluation, Verdict, running, finished}
use algorithmic_trading_stra.Queue.Rows.{WorkRow, Run, EvaluationRow, Database}
use algorithmic_trading_stra.Queue.Invariant.{IsValid}
use algorithmic_trading_stra.Queue.Revisions.{
  Appended, append_revision, append_revision-Appended, append_evaluation,
}
use algorithmic_trading_stra.Queue.Finish.{
  is_awaiting, chosen_item, finish_item, refresh_each, refresh_experiment_evidence,
  finalize_batch_evaluation,
}
use algorithmic_trading_stra.Queue.Finish.Finished.{Finished, finalize_batch_evaluation-Finished}
use algorithmic_trading_stra.Queue.Pending.{Pending, is_pending, pending_batch_evaluation}
use algorithmic_trading_stra.Queue.Pending.Awaited.{Awaited, pending_batch_evaluation_complete}
use algorithmic_trading_stra.Queue.Samples.{item, two_days, quiet}

abbrev awaiting_item : WorkRow
awaiting_item = record (item "B1" running [] (obj end)) {
  claimed_by = some "W1";
  claimed_at = some "2026-01-02T00:00:00Z";
  blocker_code = some "awaiting_batch_evaluation";
  blocker_detail = some "BATCH-1";
}

abbrev run_one : Run
run_one = record {
  id = "R1";
  experiment_id = "B1";
  work_item_id = "B1";
  status = "finished";
  metrics = some (obj (field "trades" (num 60) end));
  finished_at = some "2026-01-02T01:00:00Z";
}

abbrev verdict : Verdict → Evaluation
verdict v = record {
  experiment_id = "B1";
  verdict = v;
  summary = "";
  metrics_summary = "";
  next_step = "";
  evaluator = "analyst";
  evaluated_at = "2026-01-02T02:00:00Z";
}

abbrev earlier : EvaluationRow
earlier = record {
  experiment_id = "B1";
  verdict = Verdict.revise;
  summary = "";
  metrics_summary = "";
  next_step = "";
  evaluator = "analyst";
  evaluated_at = "2026-01-01T02:00:00Z";
  sequence = 0;
  superseded_at = none;
}

abbrev awaiting_day : Database
awaiting_day = record two_days {
  work_items = awaiting_item ∷ item "B2" finished [] (obj end) ∷ [];
  runs = run_one ∷ [];
  evaluation_history = earlier ∷ [];
}

awaiting_day-IsValid : IsValid awaiting_day.work_items
awaiting_day-IsValid = record {
  claims = (λ e. cc, (λ _. (refl, refl), tt));
  keys = (refl, (refl, tt));
}

abbrev now : String
now = "2026-01-02T03:00:00Z"

append_revision-Appended_example :
    Appended
      (verdict Verdict.pass)
      (earlier ∷ [])
      (append_revision (verdict Verdict.pass) now (earlier ∷ []))
append_revision-Appended_example =
    append_revision-Appended (verdict Verdict.pass) now (earlier ∷ [])

finalize_batch_evaluation-Finished_example :
    (db' : Database) × (r : WorkRow) × Finished (verdict Verdict.pass) none now awaiting_day db' r
unfolding finalize_batch_evaluation chosen_item is_awaiting finish_item append_evaluation
    refresh_experiment_evidence refresh_each append_revision
finalize_batch_evaluation-Finished_example = (
  _,
  _,
  finalize_batch_evaluation-Finished (verdict Verdict.pass) quiet none now awaiting_day _ _
      awaiting_day-IsValid refl,
)

pending_batch_evaluation_complete_example :
    any
      (λ (p : Pending). str_eq p.item.id "B1")
      (pending_batch_evaluation (some "W1") now awaiting_day)
    ≡ true
unfolding is_pending
pending_batch_evaluation_complete_example =
    pending_batch_evaluation_complete (some "W1") now awaiting_day awaiting_item refl refl refl refl

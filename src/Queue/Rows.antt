-- ===== src/Queue/Rows.antt =====
-- The tables that the queue reads and writes (src/ats_lab/schema.sql), and the conditions that its
-- queries share. A JSON column is held decoded. A statement runs on the lists of rows below.
use algorithmic_trading_stra.Base.{
  ℕ, String, Bool, true, false, not, ◌&&◌, ◌||◌, Option, none, some, List, [], ◌∷◌, ◌++◌, str_eq,
  if◌then◌else◌, update_where, find, any,
}
use algorithmic_trading_stra.Base.Int.{ℤ, ltb_ℤ, eqb_ℤ}
use algorithmic_trading_stra.Base.Json.{Json, member, is_text}
use algorithmic_trading_stra.Base.Texts.{text_le, text_lt, text_mem}
use algorithmic_trading_stra.Models.{Verdict, WorkState, ready, running, is_state}

-- a row of `work_items`
pub record WorkRow : Type 0 where
  pub id : String
  pub experiment_id : String
  pub priority : ℤ
  pub state : WorkState
  pub dependencies : List String
  pub attempts : ℕ
  pub retry_after : Option String
  pub blocker_code : Option String
  pub blocker_detail : Option String
  pub specification : Json
  pub claimed_by : Option String
  pub claimed_at : Option String
  pub created_at : String
  pub updated_at : String

-- a row of `experiments`, as far as the queue reads it
pub record Experiment : Type 0 where
  pub id : String
  pub experiment_type : String
  pub specification : Json

-- a row of `runs`, as far as the queue reads it
pub record Run : Type 0 where
  pub id : String
  pub experiment_id : String
  pub work_item_id : String
  pub status : String
  pub metrics : Option Json
  pub finished_at : Option String

-- a row of `events`
pub record Event : Type 0 where
  pub aggregate_type : String
  pub aggregate_id : String
  pub event_type : String
  pub payload : Json
  pub occurred_at : String

-- a row of `hpo_studies`, as far as the queue reads and writes it
pub record Study : Type 0 where
  pub id : String
  pub hpo_work_item_id : Option String
  pub lifecycle_state : String
  pub started_at : Option String
  pub updated_at : String

-- a row of `evaluation_history`; `superseded_at` is NULL on the evaluator's current revision
pub record EvaluationRow : Type 0 where
  pub experiment_id : String
  pub verdict : Verdict
  pub summary : String
  pub metrics_summary : String
  pub next_step : String
  pub evaluator : String
  pub evaluated_at : String
  pub sequence : ℕ
  pub superseded_at : Option String

-- a row of `direct_execution_sessions`, as far as the queue reads it
pub record Checkpoint : Type 0 where
  pub work_item_id : String
  pub session_id : String
  pub state : String

-- a row of `direct_execution_recoveries`
pub record Recovery : Type 0 where
  pub work_item_id : String
  pub old_session_id : String
  pub old_state : String
  pub reason : String
  pub replacement_allowed : ℕ
  pub replacement_session_id : Option String
  pub created_at : String
  pub updated_at : String

-- a row of `hpo_validation_jobs`, as far as the queue reads it
pub record ValidationJob : Type 0 where
  pub id : String
  pub work_item_id : Option String
  pub state : String
  pub completed_at : Option String

pub record Database : Type 0 where
  pub work_items : List WorkRow
  pub experiments : List Experiment
  pub runs : List Run
  pub events : List Event
  pub hpo_studies : List Study
  pub hpo_validation_jobs : List ValidationJob
  pub evaluation_history : List EvaluationRow
  pub direct_execution_sessions : List Checkpoint
  pub direct_execution_recoveries : List Recovery

-- `UPDATE work_items SET f WHERE p`
abbrev pub update_items : (WorkRow → Bool) → (WorkRow → WorkRow) → Database → Database
update_items p f db = record db { work_items = update_where p f db.work_items }

-- `INSERT INTO events(…) VALUES ('work_item', …)`
abbrev pub add_item_event : String → String → Json → String → Database → Database
add_item_event item event_type payload now db = record db {
  events =
      db.events
      ++ record {
        aggregate_type = "work_item";
        aggregate_id = item;
        event_type = event_type;
        payload = payload;
        occurred_at = now;
      }
        ∷ [];
}

-- an INSERT into `events` under another aggregate
abbrev pub add_event : String → String → String → Json → String → Database → Database
add_event aggregate id event_type payload now db = record db {
  events =
      db.events
      ++ record {
        aggregate_type = aggregate;
        aggregate_id = id;
        event_type = event_type;
        payload = payload;
        occurred_at = now;
      }
        ∷ [];
}

-- `SELECT * FROM work_items WHERE id=?` with `fetchone`
abbrev pub item_at : String → List WorkRow → Option WorkRow
item_at id = find (λ r. str_eq r.id id)

-- the column holds this text; NULL holds none
abbrev pub holds : String → Option String → Bool
holds s none = false
holds s (some t) = str_eq t s

-- `COALESCE(json_extract(specification_json,'$.readiness.status'),'ready') != 'requirements_pending'`
unfoldable pub requirements_met : WorkRow → Bool
requirements_met r =
    not
      (is_text "requirements_pending" (member "status" (member "readiness" (some r.specification))))

-- `COALESCE(json_extract(specification_json,'$.gate_decision'),'') IN ('significance_passed', …)`
unfoldable pub gate_passed : WorkRow → Bool
gate_passed r =
    let decision = member "gate_decision" (some r.specification) in
    is_text "significance_passed" decision
    || is_text "significance_passed_bh_fdr" decision
    || is_text "significance_passed_capacity_held" decision

-- `parent_experiment.experiment_type='significance'` for the experiments joined to a row
unfoldable pub is_significance : List Experiment → WorkRow → Bool
is_significance experiments r =
    any (λ (e : Experiment). str_eq e.id r.experiment_id && str_eq e.experiment_type "significance")
      experiments

-- `EXISTS (SELECT 1 FROM json_each(dependencies_json) JOIN work_items parent … WHERE test)`
unfoldable pub exists_parent : (WorkRow → Bool) → List WorkRow → List String → Bool
exists_parent test items = any (λ dep. any (λ (p : WorkRow). str_eq p.id dep && test p) items)

-- `ORDER BY priority, created_at, id`
unfoldable pub queue_order : WorkRow → WorkRow → Bool
queue_order a b =
    if ltb_ℤ a.priority b.priority
    then true
    else if eqb_ℤ a.priority b.priority
    then if text_lt a.created_at b.created_at
      then true
      else if str_eq a.created_at b.created_at
      then text_le a.id b.id
      else false
    else false

-- `state IN ('ready','running')`
unfoldable pub is_active : WorkRow → Bool
is_active r = is_state r.state ready || is_state r.state running

-- `id IN (…)`
abbrev pub id_in : List String → WorkRow → Bool
id_in ids r = text_mem r.id ids

abbrev pub ids_of : List WorkRow → List String
ids_of [] = []
ids_of (r ∷ rs) = r.id ∷ ids_of rs

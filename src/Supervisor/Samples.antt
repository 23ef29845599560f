-- ===== src/Supervisor/Samples.antt =====
-- Nine rows to analyse, pending rows of two kinds, and a failure of a running item.
use algorithmic_trading_stra.Base.{ℕ, arith, String, some, none, Option, List, [], ◌∷◌, ◌≡◌, refl}
use algorithmic_trading_stra.Base.Json.{Json, Json.obj, Json.str, field, end}
use algorithmic_trading_stra.Base.Outcome.{Result, ok}
use algorithmic_trading_stra.Models.{running}
use algorithmic_trading_stra.Queue.Rows.{WorkRow, Database}
use algorithmic_trading_stra.Queue.Samples.{item, two_days}
use algorithmic_trading_stra.Queue.Evaluation.{truthy}
use algorithmic_trading_stra.Queue.Pending.{Pending}
use algorithmic_trading_stra.Executor.Session.{Texts}
use algorithmic_trading_stra.Supervisor.Analysis.{
  analysis_cohorts, operation, operation_of_type, is_hpo_operation,
}
use algorithmic_trading_stra.Supervisor.Analysis.Homogeneous.{
  Homogeneous, analysis_cohorts-Homogeneous,
}
use algorithmic_trading_stra.Supervisor.Chunks.{balanced_chunks}
use algorithmic_trading_stra.Supervisor.Chunks.Balanced.{Balanced, balanced_chunks-Balanced}

abbrev nine : List ℕ
nine = 1 ∷ 2 ∷ 3 ∷ 4 ∷ 5 ∷ 6 ∷ 7 ∷ 8 ∷ 9 ∷ []

balanced_chunks-Balanced_example :
    (chunks : List (List ℕ)) × (balanced_chunks 8 nine ≡ ok chunks) × Balanced 8 nine chunks
balanced_chunks-Balanced_example = balanced_chunks-Balanced 8 nine (omega arith)

abbrev failing : WorkRow
failing = record (item "B1" running [] (obj end)) { attempts = 2; claimed_by = some "W1" }

abbrev failing_day : Database
failing_day = record two_days { work_items = failing ∷ [] }

abbrev soon : Option String → ℕ → Result String
soon schedule seconds = ok "2026-01-02T04:00:00Z"

-- pending rows of an ordinary and of an HPO experiment
abbrev pending_row : String → String → Pending
pending_row id kind = record {
  item = item id running [] (obj end);
  experiment = record {
    id = id;
    experiment_type = kind;
    specification = obj (field "experiment_type" (str kind) end);
  };
  run = record {
    id = "R1";
    experiment_id = id;
    work_item_id = id;
    status = "finished";
    metrics = none;
    finished_at = none;
  };
}

abbrev pending_rows : List Pending
pending_rows =
    pending_row "B1" "baseline" ∷ pending_row "H1" "hpo" ∷ pending_row "B2" "baseline" ∷ []

abbrev plain_text : Json → String
plain_text (str s) = s
plain_text _ = "?"

abbrev plain : Texts
plain = record { to_text = plain_text; lower = λ s. s }

analysis_cohorts-Homogeneous_example :
    (cohorts : List (List Pending)) × (analysis_cohorts 8 plain two_days pending_rows ≡ ok cohorts)
    × Homogeneous 8 (λ r. is_hpo_operation (operation plain two_days r)) pending_rows cohorts
unfolding operation operation_of_type truthy
analysis_cohorts-Homogeneous_example =
    analysis_cohorts-Homogeneous 8 plain two_days pending_rows (omega arith)
      ((_, refl), ((_, refl), ((_, refl), tt)))

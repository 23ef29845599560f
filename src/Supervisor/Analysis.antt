-- ===== src/Supervisor/Analysis.antt =====
-- The cohorts of an analysis in src/ats_lab/supervisor.py: `_operation`, `_analysis_cohorts` and
-- `_reduced_retry_cohorts`, on the rows that the queue gives as pending.
pub mod Homogeneous
use algorithmic_trading_stra.Base.{
  ℕ, suc, ◌+◌, ◌/◌, leb, String, Bool, false, not, Option, none, some, List, [], ◌∷◌, ◌++◌, length,
  take, select, str_eq, if◌then◌else◌,
}
use algorithmic_trading_stra.Base.Json.{Json, Json.str, Json.arr, Json.obj, Fields, end}
use algorithmic_trading_stra.Base.Outcome.{Result, ok, err, runtime_error, or_raise, ◌>>=◌}
use algorithmic_trading_stra.Queue.Rows.{WorkRow, Database, item_at}
use algorithmic_trading_stra.Queue.Evaluation.{truthy}
use algorithmic_trading_stra.Queue.Pending.{Pending}
use algorithmic_trading_stra.Executor.Session.{Texts, get, dict_of}
use algorithmic_trading_stra.Supervisor.Chunks.{drop, balanced_chunks}

-- the operation of an experiment's type: a list or a dict has no hash
unfoldable pub operation_of_type : Json → Result String
operation_of_type (str s) = ok (
    if str_eq s "significance"
    then "significance"
    else if str_eq s "monte_carlo"
    then "monte_carlo"
    else if str_eq s "hpo"
    then "hpo"
    else "backtest")
operation_of_type (arr _) = err (runtime_error "TypeError: unhashable type")
operation_of_type (obj _) = err (runtime_error "TypeError: unhashable type")
operation_of_type _ = ok "backtest"

-- a specification that is read by `.get`
abbrev pub fields_of : Json → Result Fields
fields_of v = or_raise (dict_of v) (runtime_error "AttributeError: no attribute 'get'")

-- `{}` where the item is missing
abbrev pub specification_of : Option WorkRow → Result Fields
specification_of none = ok end
specification_of (some w) = fields_of w.specification

unfoldable pub operation : Texts → Database → Pending → Result String
unfolding operation_of_type
operation T db row = do
  work_spec ← specification_of (item_at row.item.id db.work_items)
  if truthy (get "operation" work_spec)
      then ok (T.to_text (get "operation" work_spec))
      else (fields_of row.experiment.specification >>= λ experiment.
          operation_of_type (get "experiment_type" experiment))

module _ {ℓ} {A : Type ℓ} where
  -- the two groups, each divided on its own
  unfoldable pub grouped_cohorts : ℕ → (A → Bool) → List A → Result (List (List A))
  grouped_cohorts maximum is_hpo rows = do
    ordinary ← balanced_chunks maximum (select (λ r. not (is_hpo r)) rows)
    hpo ← balanced_chunks maximum (select is_hpo rows)
    ok (ordinary ++ hpo)

  unfoldable pub reduced_retry_cohorts : List A → List (List A)
  reduced_retry_cohorts rows =
      if leb (length rows) 1
      then rows ∷ []
      else let midpoint = (length rows + 1) / 2 in take midpoint rows ∷ drop midpoint rows ∷ []

-- `self._operation(row) == "hpo"`
abbrev pub is_hpo_operation : Result String → Bool
is_hpo_operation (ok s) = str_eq s "hpo"
is_hpo_operation (err _) = false

-- the operations of the rows, of which the first that raises ends the call
unfoldable pub operations : Texts → Database → List Pending → Result (List String)
unfolding operation
operations T db [] = ok []
operations T db (row ∷ rows) = do s ← operation T db row; rest ← operations T db rows; ok (s ∷ rest)

unfoldable pub analysis_cohorts : ℕ → Texts → Database → List Pending → Result (List (List Pending))
unfolding operation operations
analysis_cohorts maximum T db rows = operations T db rows >>= λ _.
    grouped_cohorts maximum (λ r. is_hpo_operation (operation T db r)) rows

-- ===== src/Samples.antt =====
-- Concrete calls of the loop's control, the terminal's keys and the portfolio preflight, on which their
-- theorems are run.
use algorithmic_trading_stra.Base.{
  ℕ, ◌+◌, ◌*◌, arith, String, Bool, true, false, some, List, [], ◌∷◌, ◌≡◌, refl, All, length,
}
use algorithmic_trading_stra.Base.Int.{ℤ, pos}
use algorithmic_trading_stra.Base.Outcome.{ok, err, runtime_error}
use algorithmic_trading_stra.Queue.Rows.{Database}
use algorithmic_trading_stra.Queue.Retries.{Delays, repair_each, repair_relative_retry_schedules}
use algorithmic_trading_stra.Control.{
  Laboratory, OperatorControl, is_control_state, is_running, start,
}
use algorithmic_trading_stra.Control.Replay.{
  Agrees, Call, call_start, call_pause, call_stop, perform_all, perform_all-Agrees,
}
use algorithmic_trading_stra.Control.Starts.{StartFailed, start-StartFailed, start-running}
use algorithmic_trading_stra.Tui.{
  TuiState, queue, standard, CursesKeys, press_of, stop_key, stop, pressed, handle_key,
}
use algorithmic_trading_stra.Tui.Keys.{InRange, handle_key-InRange, handle_key-stop}
use algorithmic_trading_stra.Gates.Samples.{whole}
use algorithmic_trading_stra.Gates.Findings.{dedupe, dedupe_from}
use algorithmic_trading_stra.Portfolio.{
  PortfolioCandidate, PortfolioAssessment, pearson, pairs_with, correlations_of, capacity,
  utilization_of, reasons_of, assessed, assess_portfolio, ready_for_portfolio_review,
}
use algorithmic_trading_stra.Portfolio.Preflight.{
  In, Pairwise, comparison, Uncorrelated, Within, correlations_of_complete, assess_portfolio-ready,
}

abbrev empty_queue : Database
empty_queue = record {
  work_items = [];
  experiments = [];
  runs = [];
  events = [];
  hpo_studies = [];
  hpo_validation_jobs = [];
  evaluation_history = [];
  direct_execution_sessions = [];
  direct_execution_recoveries = [];
}

abbrev by_operator : String → OperatorControl
by_operator s = record {
  desired_state = s;
  updated_at = "2026-01-01T00:00:00Z";
  updated_by = "operator";
}

abbrev laboratory : Laboratory
laboratory = record {
  queue = empty_queue;
  operator_control = some (by_operator "running");
  supervisor_runtime = some (record { process_id = pos 42; phase = "executing" });
}

abbrev delays : Delays
delays = record { is_number = λ _. false; resolve = λ t. ok t }

abbrev all_alive : ℤ → Bool
all_alive _ = true

abbrev none_alive : ℤ → Bool
none_alive _ = false

abbrev calls : List Call
calls =
    call_pause all_alive "2026-01-01T00:00:01Z"
    ∷ call_start delays none_alive (err (runtime_error "no executable")) "2026-01-01T00:00:02Z"
    ∷ call_stop all_alive "2026-01-01T00:00:03Z"
    ∷ []

perform_all-Agrees_example : Agrees "running" (perform_all calls laboratory)
perform_all-Agrees_example = perform_all-Agrees "running" calls laboratory refl

no_repairs :
    repair_relative_retry_schedules delays "2026-01-01T00:00:02Z" empty_queue ≡ ok (empty_queue, 0)
unfolding repair_relative_retry_schedules repair_each
no_repairs = refl

running_is_admitted : is_control_state "running" ≡ true
unfolding is_control_state
running_is_admitted = refl

nobody_runs : is_running none_alive laboratory.supervisor_runtime ≡ false
unfolding is_running
nobody_runs = refl

somebody_runs : is_running all_alive laboratory.supervisor_runtime ≡ true
unfolding is_running
somebody_runs = refl

start-StartFailed_example : StartFailed "running" (runtime_error "no executable") (
    start none_alive delays (err (runtime_error "no executable")) "2026-01-01T00:00:02Z" laboratory)
start-StartFailed_example =
    start-StartFailed none_alive delays (runtime_error "no executable") "2026-01-01T00:00:02Z"
      laboratory empty_queue 0 (by_operator "running") no_repairs refl running_is_admitted
      nobody_runs

start-running_example :
    start all_alive delays (ok (pos 7)) "2026-01-01T00:00:02Z" laboratory
    ≡ start all_alive delays (err (runtime_error "no executable")) "2026-01-01T00:00:02Z" laboratory
start-running_example =
    start-running all_alive delays (ok (pos 7)) (err (runtime_error "no executable"))
      "2026-01-01T00:00:02Z" laboratory somebody_runs

abbrev keys : CursesKeys
keys = record {
  key_left = 260;
  key_right = 261;
  key_up = 259;
  key_down = 258;
  key_page_up = 339;
  key_page_down = 338;
}

abbrev asked_to_stop : TuiState
asked_to_stop = record {
  view = queue;
  selected = 3;
  scroll = 0;
  show_help = false;
  show_detail = true;
  confirm_stop = true;
  message = "";
  column_mode = standard;
}

handle_key-InRange_example : InRange 5 (handle_key keys asked_to_stop 338 5).0
handle_key-InRange_example = handle_key-InRange keys asked_to_stop 338 5 (omega arith)

second_press_stops : (handle_key keys asked_to_stop 115 5).1 ≡ some stop
unfolding handle_key pressed press_of
second_press_stops = refl

handle_key-stop_example :
    (false ≡ false)
    × (press_of keys 115 ≡ stop_key)
    × (true ≡ true)
    × ((handle_key keys asked_to_stop 115 5).0.confirm_stop ≡ false)
handle_key-stop_example = handle_key-stop keys asked_to_stop 115 5 second_press_stops

abbrev candidate : String → List ℕ → PortfolioCandidate whole (λ n. n)
candidate name returns = record {
  strategy = name;
  returns = returns;
  capacity_notional = some 10;
  proposed_allocation_notional = some 5;
}

abbrev candidates : List (PortfolioCandidate whole (λ n. n))
candidates = candidate "Trend" (1 ∷ 3 ∷ []) ∷ candidate "Reversion" (4 ∷ 8 ∷ []) ∷ []

candidates_are_ready :
    (a : PortfolioAssessment whole (λ n. n)) × (assess_portfolio whole (λ n. n) candidates 1 1
      ≡ ok a)
    × (ready_for_portfolio_review whole (λ n. n) a ≡ true)
unfolding assess_portfolio assessed ready_for_portfolio_review reasons_of correlations_of pairs_with
    pearson capacity utilization_of dedupe dedupe_from
candidates_are_ready = (_, refl, refl)

assess_portfolio-ready_example :
    Pairwise (Uncorrelated whole (λ n. n) 1) candidates
    × All (λ i. Within whole (λ n. n) 1 (capacity whole (λ n. n) i)) candidates
assess_portfolio-ready_example =
    assess_portfolio-ready whole (λ n. n) candidates 1 1 candidates_are_ready.0
      candidates_are_ready.1 candidates_are_ready.2

correlations_of_complete_example :
    Pairwise
      (λ left right.
        In (comparison whole (λ n. n) left right) (correlations_of whole (λ n. n) candidates))
      candidates
    × (2 * length (correlations_of whole (λ n. n) candidates) + 2 ≡ 4)
correlations_of_complete_example = correlations_of_complete whole (λ n. n) candidates

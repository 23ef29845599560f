-- ===== src/Lib.antt =====
-- Verification library of ATS Lab, a workflow for strategy research: a work queue in SQLite, deterministic
-- gates over evidence, synthesis cohorts, the decisions of a supervisor and its executor, the operator's
-- control, a terminal interface and a portfolio preflight.
--
-- Queue models src/ats_lab/database_queue.py. The tables of src/ats_lab/schema.sql are lists of rows
-- (Queue.Rows), a SQL statement is a selection, an update or an order on them, and JSON columns are decoded.
-- Queue.Transitions has the guarded transition and upsert_work_item; Queue.Claims claim_next, claim_batch and
-- the recovery of claims; Queue.Blockers resolve_, rectify_ and retry of blocked items,
-- archive_scheduled_dependents and mark_unroutable_hpo_requirements_pending; Queue.Retries the deferrals, the
-- promotion of due retries and the repair of retry schedules; Queue.Evaluation mark_awaiting_evaluation and
-- requeue_finished_evaluation; Queue.Pending pending_batch_evaluation; Queue.Revisions _append_evaluation of
-- src/ats_lab/database_evidence.py; Queue.Finish finalize_batch_evaluation and the failure runs of
-- src/ats_lab/database_evidence.py; Queue.Routes repair_work_item_data_routes; Queue.Dependencies
-- reconcile_scheduled_dependencies, promote_scheduled_runnable and retry_blocked_work_item, which call
-- reconcile_hpo_validation_jobs of src/ats_lab/database_hpo.py (Queue.Validations). A method of one transaction
-- returns the new state or an error, which rolls back; a method of several returns the state that it leaves with its result. The times that the code reads
-- from the clock are arguments. Queue.Invariant, Queue.Keeps and Queue.Commands have what every method keeps.
--
-- Gates models src/ats_lab/gates.py over the evidence rows of src/ats_lab/evidence.py and the thresholds of
-- src/ats_lab/resources.py: windows and trade floors (Gates.Windows, with the dates of Dates), robustness
-- (Gates.Robustness), evaluate_gates (Gates.Quality), evaluate_promotion (Gates.Promotion) and
-- evaluate_hpo_candidate (Gates.Candidate). Python floats are a parameter (Floats) of which no law is assumed.
-- The trade floor of a window is the exact quotient by 365.25, rounded up. Gates.Sound has what the verdicts
-- mean.
--
-- Synthesis models the cohorts of src/ats_lab/database_synthesis.py (Synthesis.Cohorts, with the moves of a
-- status and histories of calls in Synthesis.Lifecycle, Synthesis.Planning and Synthesis.Activation) and
-- benjamini_hochberg of src/ats_lab/synthesis.py (Synthesis.Fdr). Supervisor models _balanced_chunks,
-- _analysis_cohorts and _retry_or_block of src/ats_lab/supervisor.py on the queue, and Recovery the recovery of
-- legacy failures in src/ats_lab/execution_disposition.py. Executor models the classification of
-- a session and the checks of a request and of a result in src/ats_lab/direct_mcp_executor.py, on decoded JSON.
-- EvaluationWindows models src/ats_lab/evaluation_windows.py, ResourcePolicy the checks of
-- src/ats_lab/resources.py, and DataRoutes the required and merged routes of
-- src/ats_lab/strategy_dependencies.py. The equality of decoded JSON, the text that Python makes of a value,
-- the bundled manifest, the digest of a failure and the resolution of retry schedules are parameters.
--
-- Control models set_control_state and control_status of src/ats_lab/database.py and SupervisorLoopControl of
-- src/ats_lab/loop_control.py, which also repairs retry schedules in the queue before it starts. Which
-- processes are alive, what a launch gives and how delays resolve are parameters. Tui models handle_key of
-- src/ats_lab/tui_controller.py on the state of src/ats_lab/tui_types.py; the key codes of curses are
-- parameters. Portfolio models src/ats_lab/portfolio.py, with the square root as a parameter. Models has the
-- enumerations of src/ats_lab/models.py and src/ats_lab/evidence.py. Base has the shared lists, texts,
-- integers, JSON documents and results. The modules named Samples hold the concrete runs.
--
-- The loops on fuel are that of reconcile_scheduled_dependencies, whose fuel is the limit, since each pass that
-- changes something adds to a result that the limit bounds, and the digits of a number, whose fuel is the number
-- and one, since each division makes it smaller.
--
-- Not modelled: enqueue_learning_safely of src/ats_lab/research_memory.py and _refresh_run_evidence of
-- src/ats_lab/database_evidence.py, which write tables that the model leaves out and are parameters that give a value or raise (Queue.Finish.Projections); routes of evaluate_gates with
-- fields that are neither texts nor missing; the normalization of evidence and the rest of research memory; reconcile_significance_gate and the checks of
-- proposals; the processes, agents and network calls of the supervisor and its executors; the command line,
-- dashboard and drawing, which present rows.
pub mod Base
pub mod Models
pub mod Floats
pub mod Dates
pub mod Queue
pub mod Gates
pub mod Control
pub mod Tui
pub mod Portfolio
pub mod Synthesis
pub mod Supervisor
pub mod Executor
pub mod EvaluationWindows
pub mod ResourcePolicy
pub mod DataRoutes
pub mod Recovery
pub mod Samples

-- ===== src/Queue.antt =====
-- The work queue of src/ats_lab/database_queue.py: the tables (Rows), the guarded transition and
-- registration (Transitions), claims (Claims), blockers (Blockers), retries (Retries), the
-- reconciliation of dependencies (Dependencies), batch evaluation (Evaluation, Pending, Revisions, Finish),
-- the repair of data routes (Routes) and the validation jobs that follow the queue (Validations).
pub mod Rows
pub mod Invariant
pub mod Picks
pub mod Rules
pub mod Keeps
pub mod Commands
pub mod Samples
pub mod Transitions
pub mod Claims
pub mod Blockers
pub mod Retries
pub mod Dependencies
pub mod Evaluation
pub mod Revisions
pub mod Routes
pub mod Pending
pub mod Validations
pub mod Finish

-- ===== src/Supervisor/Retry.antt =====
-- `_retry_or_block` of src/ats_lab/supervisor.py, on the queue. What `resolve_retry_after` makes of a schedule
-- and a default delay in seconds is a parameter: the clock and the date formats are the standard library's.
pub mod Outcome
use algorithmic_trading_stra.Base.{
  ℕ, suc, ◌+◌, ◌-◌, ◌*◌, ◌^◌, leb, String, Bool, Option, none, some, List, [], ◌∷◌, if◌then◌else◌,
}
use algorithmic_trading_stra.Base.Texts.{◌<>◌, text_mem, decimal, strip}
use algorithmic_trading_stra.Base.Outcome.{Result, ◌>>=◌}
use algorithmic_trading_stra.Models.{running, blocked, waiting_retry}
use algorithmic_trading_stra.Queue.Rows.{WorkRow, Database}
use algorithmic_trading_stra.Queue.Transitions.{transition_work_item}
use algorithmic_trading_stra.Queue.Retries.{defer_infrastructure_retry}

-- `INFRASTRUCTURE_FAILURE_CODES` of src/ats_lab/execution_disposition.py
abbrev pub infrastructure_failure_codes : List String
infrastructure_failure_codes =
    "executor_provider_failed" ∷ "executor_timeout" ∷ "executor_start_failed" ∷ "executor_failed"
    ∷ "invalid_executor_result" ∷ "invalid_executor_contract" ∷ "invalid_dispatch_result"
    ∷ "dispatcher_exception" ∷ "batch_coverage_mismatch" ∷ "invalid_execution_result"
    ∷ "invalid_run_evidence" ∷ "direct_mcp_error" ∷ "malformed_jesse_session"
    ∷ "invalid_jesse_metrics" ∷ "jesse_execution_deferred" ∷ "jesse_draft_not_started"
    ∷ "jesse_start_recovery_failed" ∷ "jesse_missing_session_recovered"
    ∷ "jesse_zombie_recovery_pending" ∷ "jesse_zombie_recovery_required" ∷ "memory_unavailable"
    ∷ "memory_delivery_failed" ∷ "memory_recall_failed" ∷ []

unfoldable pub is_infrastructure : String → Bool
is_infrastructure code = text_mem code infrastructure_failure_codes

abbrev pub limit_detail : String → ℕ → String → String
limit_detail code attempts detail =
    strip (code <> " after " <> decimal attempts <> " attempts: " <> detail)

-- `item` is the row as the caller read it; the row is what the queue returns.
module _ (resolve_retry_after : Option String → ℕ → Result String) where
  unfoldable pub retry_or_block :
      ℕ
      → ℕ
      → WorkRow
      → String
      → String
      → Option String
      → String
      → Database
      → Result (Database × WorkRow)
  retry_or_block retry_delay_seconds max_attempts item code detail retry_after now db =
      let next_attempt = item.attempts + 1 in
      let limit_reached =
        transition_work_item item.id blocked (running ∷ [])
          (record {
            blocker_code = some "retry_limit_reached";
            blocker_detail = some (limit_detail code next_attempt detail);
            retry_after = none;
          })
          now db in
      if is_infrastructure code
      then (resolve_retry_after retry_after retry_delay_seconds >>= λ time.
          defer_infrastructure_retry item.id code detail time now db)
      else if leb max_attempts next_attempt
      then limit_reached
      else (resolve_retry_after retry_after (retry_delay_seconds * 2 ^ (next_attempt - 1))
          >>= λ time.
              transition_work_item item.id waiting_retry (running ∷ [])
                (record {
                  blocker_code = some code;
                  blocker_detail = some detail;
                  retry_after = some time;
                })
                now db)

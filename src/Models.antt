-- ===== src/Models.antt =====
-- The enumerations of src/ats_lab/models.py.
use algorithmic_trading_stra.Base.{ℕ, Bool, ◌≡◌, ◌==◌, String, arith}

pub data WorkState : Type 0 where
  scheduled ready running waiting_retry blocked finished archived : WorkState

-- the stored text of a state, `state.value`
unfoldable pub state_value : WorkState → String
state_value scheduled = "scheduled"
state_value ready = "ready"
state_value running = "running"
state_value waiting_retry = "waiting_retry"
state_value blocked = "blocked"
state_value finished = "finished"
state_value archived = "archived"

abbrev pub state_index : WorkState → ℕ
state_index scheduled = 0
state_index ready = 1
state_index running = 2
state_index waiting_retry = 3
state_index blocked = 4
state_index finished = 5
state_index archived = 6

-- `row["state"] == state.value`
abbrev pub is_state : WorkState → WorkState → Bool
is_state s t = state_index s == state_index t

pub is_state→eq : (s t : WorkState) → is_state s t ≡ Bool.true → s ≡ t
is_state→eq s t h = ground arith

pub data Verdict : Type 0 where
  reject revise hpo_candidate paper_trade_candidate inconclusive infrastructure_failure pass :
      Verdict

-- LifecycleStage and EvidenceSplit of src/ats_lab/evidence.py
pub data LifecycleStage : Type 0 where
  baseline multi_window cost_sensitivity out_of_sample significance : LifecycleStage
  monte_carlo hpo harness_check paper_trade : LifecycleStage

pub data EvidenceSplit : Type 0 where
  train holdout oos rolling : EvidenceSplit

-- Evaluation of src/ats_lab/models.py
pub record Evaluation : Type 0 where
  pub experiment_id : String
  pub verdict : Verdict
  pub summary : String
  pub metrics_summary : String
  pub next_step : String
  pub evaluator : String
  pub evaluated_at : String

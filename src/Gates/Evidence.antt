-- ===== src/Gates/Evidence.antt =====
-- One row of canonical evidence (NormalizedEvidence of src/ats_lab/evidence.py, the fields that the gates
-- read) and the thresholds of ResourcePolicy. A row is an object with every field, so `_value` reads a
-- field; the branch of `_value` for mappings is not modelled. Policy integers are at least 1 by
-- ResourcePolicy's own check.
use algorithmic_trading_stra.Base.{
  ℕ, String, Bool, true, false, not, ◌&&◌, Option, none, some, str_eq, is_some,
}
use algorithmic_trading_stra.Base.Int.{ℤ}
use algorithmic_trading_stra.Floats.{Floats}
use algorithmic_trading_stra.Models.{
  Verdict, reject, infrastructure_failure, LifecycleStage, EvidenceSplit,
}

module _ (F : Floats) where
  open F use {Float, of_ℕ, lt}

  pub record Evidence : Type 0 where
    pub lifecycle_stage : Option LifecycleStage
    pub verdict : Option Verdict
    pub run_id : Option String
    pub session_id : Option String
    pub symbol : Option String
    pub timeframe : Option String
    pub start_date : Option String
    pub finish_date : Option String
    pub evidence_split : Option EvidenceSplit
    pub net_profit_percentage : Option Float
    pub max_drawdown_percentage : Option Float
    pub sharpe_ratio : Option Float
    pub sortino_ratio : Option Float
    pub calmar_ratio : Option Float
    pub profit_factor : Option Float
    pub trade_count : Option ℤ
    pub fees : Option Float
    pub expectancy : Option Float
    pub leverage : Option Float
    pub configured_futures_leverage : Option Float
    pub effective_leverage_mean : Option Float
    pub monte_carlo_scenarios : Option ℤ
    pub monte_carlo_method : Option String
    pub monte_carlo_best_5pct_net_profit_percentage : Option Float
    pub monte_carlo_worst_5pct_net_profit_percentage : Option Float
    pub walk_forward_windows : Option ℤ
    pub walk_forward_method : Option String

  pub record Policy : Type 0 where
    pub minimum_trades : ℕ
    pub minimum_trades_per_year : ℕ
    pub minimum_trade_floor : ℕ
    pub monte_carlo_scenarios : ℕ
    pub maximum_drawdown_percentage : Float
    pub minimum_sharpe_ratio : Float
    pub minimum_profit_factor : Float
    pub maximum_holdout_degradation_percentage : Float
    pub minimum_expectancy : Float
    pub hpo_route_dominance_percentage : Float

  -- `_value(row, name) not in (None, "")`
  abbrev pub filled : Option String → Bool
  filled none = false
  filled (some s) = not (str_eq s "")

  unfoldable pub has_route : Evidence → Bool
  has_route row =
      filled row.symbol && filled row.timeframe && filled row.start_date && filled row.finish_date

  unfoldable pub has_execution_provenance : Evidence → Bool
  has_execution_provenance row = filled row.run_id && filled row.session_id

  unfoldable pub has_core_metrics : Evidence → Bool
  has_core_metrics row =
      is_some row.net_profit_percentage
      && is_some row.max_drawdown_percentage
      && is_some row.sharpe_ratio
      && is_some row.sortino_ratio
      && is_some row.calmar_ratio
      && is_some row.profit_factor
      && is_some row.trade_count

  -- the first of the values that is there and positive
  abbrev first_positive : Option Float → Float → Float
  first_positive none d = d
  first_positive (some f) d = elim (lt (of_ℕ 0) f) [ true ↦ f | false ↦ d ]

  unfoldable pub effective_leverage : Evidence → Float
  effective_leverage row =
      first_positive row.configured_futures_leverage
        (first_positive row.leverage (first_positive row.effective_leverage_mean (of_ℕ 1)))

  abbrev pub is_cost_sensitivity : Evidence → Bool
  is_cost_sensitivity row = elim row.lifecycle_stage [
    | some LifecycleStage.cost_sensitivity ↦ true
    | _ ↦ false
  ]

  abbrev pub is_monte_carlo : Evidence → Bool
  is_monte_carlo row = elim row.lifecycle_stage [
    | some LifecycleStage.monte_carlo ↦ true
    | _ ↦ false
  ]

  abbrev pub is_out_of_sample : Evidence → Bool
  is_out_of_sample row = elim row.lifecycle_stage [
    | some LifecycleStage.out_of_sample ↦ true
    | _ ↦ false
  ]

  abbrev pub is_split : EvidenceSplit → Evidence → Bool
  is_split s row = elim row.evidence_split [ none ↦ false | some t ↦ same s t ]
    where
      same : EvidenceSplit → EvidenceSplit → Bool
      same EvidenceSplit.train EvidenceSplit.train = true
      same EvidenceSplit.holdout EvidenceSplit.holdout = true
      same EvidenceSplit.oos EvidenceSplit.oos = true
      same EvidenceSplit.rolling EvidenceSplit.rolling = true
      same _ _ = false

  -- `_value(row, "verdict") in {"reject", "infrastructure_failure"}`
  abbrev pub is_rejected : Evidence → Bool
  is_rejected row = elim row.verdict [
    | some reject ↦ true
    | some infrastructure_failure ↦ true
    | _ ↦ false
  ]

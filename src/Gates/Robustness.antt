-- ===== src/Gates/Robustness.antt =====
-- `_robustness_state` of src/ats_lab/gates.py: concrete evidence of one Monte Carlo or cost-stress row.
use algorithmic_trading_stra.Base.{
  ℕ, Bool, true, false, not, ◌||◌, Option, none, some, List, [], ◌∷◌, if◌then◌else◌, some_or, any,
}
use algorithmic_trading_stra.Base.Int.{pos, ltb_ℤ}
use algorithmic_trading_stra.Floats.{Floats}
use algorithmic_trading_stra.Gates.Evidence.{
  Evidence, Policy, has_route, has_execution_provenance, has_core_metrics, effective_leverage,
  is_rejected,
}
use algorithmic_trading_stra.Gates.Findings.{Outcome, passes, fails, lacks}
use algorithmic_trading_stra.Gates.Windows.{window_dates_are_malformed, required_trade_count}

module _ (F : Floats) where
  open F use {Float, of_ℕ, lt, le, mul}

  -- the last test of `_robustness_state`
  unfoldable pub is_weak : Policy F → ℕ → Evidence F → Bool
  is_weak policy floor row =
      let zero = of_ℕ 0 in
      le (some_or row.net_profit_percentage zero) zero
      || lt (mul policy.maximum_drawdown_percentage (effective_leverage F row))
          (some_or row.max_drawdown_percentage zero)
      || le (some_or row.expectancy zero) policy.minimum_expectancy
      || lt (some_or row.sharpe_ratio zero) policy.minimum_sharpe_ratio
      || lt (some_or row.profit_factor zero) policy.minimum_profit_factor
      || ltb_ℤ (some_or row.trade_count (pos 0)) (pos floor)

  -- `except ValueError: return "failed"` where there is no trade floor
  abbrev pub judged : Policy F → Evidence F → Option ℕ → Outcome
  judged policy row none = fails
  judged policy row (some floor) = if is_weak policy floor row then fails else passes

  unfoldable pub robustness_state : Policy F → Evidence F → Outcome
  robustness_state policy row =
      if not (has_route F row)
        || not (has_execution_provenance F row)
        || not (has_core_metrics F row)
      then lacks
      else if is_rejected F row || window_dates_are_malformed F row
      then fails
      else judged policy row (required_trade_count F policy row)

  abbrev pub is_fails : Outcome → Bool
  is_fails fails = true
  is_fails _ = false

  abbrev pub is_lacks : Outcome → Bool
  is_lacks lacks = true
  is_lacks _ = false

  -- the states of some rows taken together: no rows lack the evidence
  unfoldable pub robust_outcome : Policy F → List (Evidence F) → Outcome
  unfolding robustness_state
  robust_outcome policy [] = lacks
  robust_outcome policy (row ∷ rows) =
      if any (λ r. is_fails (robustness_state policy r)) (row ∷ rows)
      then fails
      else if any (λ r. is_lacks (robustness_state policy r)) (row ∷ rows)
      then lacks
      else passes

-- ===== src/EvaluationWindows/Samples.antt =====
-- The default lookbacks before a day.
use algorithmic_trading_stra.Base.{none, refl}
use algorithmic_trading_stra.Base.Int.{pos}
use algorithmic_trading_stra.EvaluationWindows.{
  EvaluationWindowPolicy, EvaluationWindowPlan, date, checked_windows, minus_days,
  resolve_evaluation_windows,
}
use algorithmic_trading_stra.EvaluationWindows.Contiguous.{
  Contiguous, resolve_evaluation_windows-Contiguous,
}

abbrev pub defaults : EvaluationWindowPolicy
defaults = record {
  mode = "relative";
  as_of_date = none;
  comparison_lookback_days = pos 365;
  oos_lookback_days = pos 180;
  rolling_lookback_days = pos 90;
}

-- with 2026-01-02 as the anchor
abbrev plan : EvaluationWindowPlan
plan = record {
  anchor_date = 739618;
  hpo_start = 738983;
  hpo_finish = 739347;
  rolling_start = 739348;
  rolling_finish = 739437;
  oos_start = 739438;
  oos_finish = 739618;
}

resolve_evaluation_windows-Contiguous_example : Contiguous defaults plan
unfolding checked_windows resolve_evaluation_windows minus_days
resolve_evaluation_windows-Contiguous_example =
    resolve_evaluation_windows-Contiguous defaults (date 739618) plan refl refl

-- ===== src/Gates/Samples.antt =====
-- Evidence on which the theorems about the gates are run, with natural numbers for floats.
use algorithmic_trading_stra.Base.{
  ◌↔◌, arith, ℕ, ◌+◌, ◌-◌, ◌*◌, ◌/◌, ltb, leb, ◌==◌, String, true, false, Option, none, some, List,
  [], ◌∷◌, ◌≡◌, refl, All,
}
use algorithmic_trading_stra.Base.Int.{pos}
use algorithmic_trading_stra.Base.Outcome.{ok}
use algorithmic_trading_stra.Floats.{Floats}
use algorithmic_trading_stra.Dates.{from_iso}
use algorithmic_trading_stra.Models.{LifecycleStage, EvidenceSplit}
use algorithmic_trading_stra.Gates.Evidence.{
  Evidence, Policy, has_route, has_execution_provenance, has_core_metrics, effective_leverage,
}
use algorithmic_trading_stra.Gates.Findings.{
  passes, mark, note, decide, dedupe, dedupe_from, Decision,
}
use algorithmic_trading_stra.Gates.Windows.{
  dates, window, window_dates_are_malformed, required_trade_count, overlaps, overlaps_training,
}
use algorithmic_trading_stra.Gates.Robustness.{is_weak, robustness_state, robust_outcome}
use algorithmic_trading_stra.Gates.Quality.{
  GateDecision, is_nil, route_completion, minimum_gate, maximum_gate, any_below_floor,
  minimum_trade_gate, profits_of, holdout_degradation, degradation_gate, verdict_of, metric_gates,
  evaluate_gates,
}
use algorithmic_trading_stra.Gates.Promotion.{
  is_oos, expectancy_gate, validation_lane, interpret, interpretation, method_gate, scenario_gate,
  monte_carlo_gates, is_walk_forward, walk_forward_gate, promotion_findings, evaluate_promotion,
}
use algorithmic_trading_stra.Gates.Candidate.{
  above, baseline_gate, activity_gate, window_groups, is_positive_window, window_gate, route_groups,
  is_dominated, dominance_gate, candidate_findings, evaluate_hpo_candidate,
}
use algorithmic_trading_stra.Gates.Sound.Verdicts.{evaluate_gates-returns}
use algorithmic_trading_stra.Gates.Sound.Promotions.{
  Promotable, evaluate_promotion-returns, evaluate_promotion-Promotable,
}
use algorithmic_trading_stra.Gates.Sound.Candidates.{
  Optimizable, evaluate_hpo_candidate-returns, evaluate_hpo_candidate-Optimizable,
}
use algorithmic_trading_stra.Gates.Sound.Overlaps.{SharedDay, overlaps-SharedDay}
use algorithmic_trading_stra.Gates.Sound.Robust.{Robust, robust_outcome-Robust}

abbrev total : List ℕ → ℕ
total [] = 0
total (n ∷ ns) = n + total ns

-- whole numbers in place of floats
abbrev pub whole : Floats
whole = record {
  Float = ℕ;
  of_ℕ = λ n. n;
  lt = ltb;
  le = leb;
  eq = ◌==◌;
  add = ◌+◌;
  sub = ◌-◌;
  mul = ◌*◌;
  div = ◌/◌;
  abs = λ n. n;
  sum = total;
}

abbrev policy : Policy whole
policy = record {
  minimum_trades = 50;
  minimum_trades_per_year = 20;
  minimum_trade_floor = 12;
  monte_carlo_scenarios = 500;
  maximum_drawdown_percentage = 30;
  minimum_sharpe_ratio = 1;
  minimum_profit_factor = 1;
  maximum_holdout_degradation_percentage = 50;
  minimum_expectancy = 0;
  hpo_route_dominance_percentage = 80;
}

-- a good row of a stage and a split, over a window
abbrev row : LifecycleStage → Option EvidenceSplit → String → String → String → Evidence whole
row stage split symbol start finish = record {
  lifecycle_stage = some stage;
  verdict = none;
  run_id = some "R1";
  session_id = some "J1";
  symbol = some symbol;
  timeframe = some "4h";
  start_date = some start;
  finish_date = some finish;
  evidence_split = split;
  net_profit_percentage = some 10;
  max_drawdown_percentage = some 8;
  sharpe_ratio = some 2;
  sortino_ratio = some 2;
  calmar_ratio = some 1;
  profit_factor = some 2;
  trade_count = some (pos 60);
  fees = some 3;
  expectancy = some 1;
  leverage = none;
  configured_futures_leverage = none;
  effective_leverage_mean = none;
  monte_carlo_scenarios = some (pos 1000);
  monte_carlo_method = some "candle_based";
  monte_carlo_best_5pct_net_profit_percentage = some 20;
  monte_carlo_worst_5pct_net_profit_percentage = some 1;
  walk_forward_windows = some (pos 4);
  walk_forward_method = some "rolling";
}

abbrev costs : Evidence whole
costs = row LifecycleStage.cost_sensitivity none "BTC-USDT" "2024-01-01" "2025-01-01"

abbrev baselines : List (Evidence whole)
baselines = costs ∷ row LifecycleStage.baseline none "ETH-USDT" "2023-01-01" "2024-01-01" ∷ []

abbrev lifecycle : List (Evidence whole)
lifecycle =
    costs
    ∷ row LifecycleStage.hpo (some EvidenceSplit.train) "BTC-USDT" "2022-01-01" "2023-01-01"
    ∷ row LifecycleStage.out_of_sample (some EvidenceSplit.oos) "BTC-USDT" "2025-06-01" "2026-01-01"
    ∷ row LifecycleStage.out_of_sample (some EvidenceSplit.rolling) "BTC-USDT" "2025-01-01"
        "2025-06-01"
    ∷ row LifecycleStage.monte_carlo none "BTC-USDT" "2025-01-01" "2026-01-01"
    ∷ []

evaluate_gates-returns_example :
    (d : GateDecision whole) × (evaluate_gates whole policy baselines [] [] ≡ ok d)
evaluate_gates-returns_example = evaluate_gates-returns whole policy baselines [] []

evaluate_promotion-returns_example :
    (d : Decision) × (evaluate_promotion whole policy lifecycle ≡ ok d)
evaluate_promotion-returns_example = evaluate_promotion-returns whole policy lifecycle

evaluate_hpo_candidate-returns_example :
    (d : Decision) × (evaluate_hpo_candidate whole policy baselines ≡ ok d)
evaluate_hpo_candidate-returns_example = evaluate_hpo_candidate-returns whole policy baselines

costs_are_robust : robust_outcome whole policy (costs ∷ []) ≡ passes
unfolding robust_outcome robustness_state has_route has_execution_provenance has_core_metrics
    window_dates_are_malformed window from_iso required_trade_count is_weak effective_leverage
costs_are_robust = refl

robust_outcome-Robust_example :
    (is_nil (costs ∷ []) ≡ false) × All (Robust whole policy) (costs ∷ [])
robust_outcome-Robust_example = robust_outcome-Robust whole policy (costs ∷ []) costs_are_robust

baselines_allowed :
    (d : Decision) × (evaluate_hpo_candidate whole policy baselines ≡ ok d) × (d.allowed ≡ true)
unfolding evaluate_hpo_candidate candidate_findings baseline_gate above activity_gate
    any_below_floor window_gate window_groups is_positive_window dominance_gate route_groups
    is_dominated note decide dedupe dedupe_from robust_outcome robustness_state has_route
    has_execution_provenance has_core_metrics window_dates_are_malformed window from_iso
    required_trade_count is_weak effective_leverage
baselines_allowed = (_, refl, refl)

evaluate_hpo_candidate-Optimizable_example : Optimizable whole policy baselines
evaluate_hpo_candidate-Optimizable_example =
    evaluate_hpo_candidate-Optimizable whole policy baselines baselines_allowed.0
      baselines_allowed.1 baselines_allowed.2

lifecycle_allowed :
    (d : Decision) × (evaluate_promotion whole policy lifecycle ≡ ok d) × (d.allowed ≡ true)
unfolding evaluate_promotion promotion_findings is_oos overlaps overlaps_training validation_lane
    expectancy_gate interpret interpretation method_gate scenario_gate monte_carlo_gates
    is_walk_forward walk_forward_gate note decide dedupe dedupe_from evaluate_gates
    minimum_trade_gate any_below_floor route_completion mark metric_gates degradation_gate
    minimum_gate maximum_gate holdout_degradation profits_of verdict_of robust_outcome
    robustness_state has_route has_execution_provenance has_core_metrics window_dates_are_malformed
    window from_iso required_trade_count is_weak effective_leverage
lifecycle_allowed = (_, refl, refl)

evaluate_promotion-Promotable_example : Promotable whole policy lifecycle
evaluate_promotion-Promotable_example =
    evaluate_promotion-Promotable whole policy lifecycle lifecycle_allowed.0 lifecycle_allowed.1
      lifecycle_allowed.2

abbrev later : Evidence whole
later = row LifecycleStage.hpo (some EvidenceSplit.train) "BTC-USDT" "2024-06-01" "2025-06-01"

costs-window : window whole costs ≡ dates 738886 739252
unfolding window from_iso
costs-window = refl

later-window : window whole later ≡ dates 739038 739403
unfolding window from_iso
later-window = refl

overlaps-SharedDay_example :
    (overlaps whole costs later ≡ true) ↔ SharedDay 738886 739252 739038 739403
overlaps-SharedDay_example =
    overlaps-SharedDay whole costs later 738886 739252 739038 739403 refl refl costs-window
      later-window (omega arith) (omega arith)

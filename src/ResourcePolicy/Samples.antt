-- ===== src/ResourcePolicy/Samples.antt =====
-- The default policy, with whole numbers in place of floats, and nine rows to analyse.
use algorithmic_trading_stra.Base.{ℕ, ◌≤◌, List, [], ◌∷◌, ◌≡◌, refl}
use algorithmic_trading_stra.Base.Int.{pos, pos_part}
use algorithmic_trading_stra.Base.Outcome.{ok}
use algorithmic_trading_stra.Gates.Samples.{whole}
use algorithmic_trading_stra.EvaluationWindows.Samples.{defaults}
use algorithmic_trading_stra.Supervisor.Chunks.{balanced_chunks}
use algorithmic_trading_stra.Supervisor.Chunks.Balanced.{Balanced}
use algorithmic_trading_stra.ResourcePolicy.{
  ResourcePolicy, checked_policy, check_counts, check_limits, check_rates,
}
use algorithmic_trading_stra.ResourcePolicy.Limits.{checked_policy-Balanced}

-- the fractions of the defaults are 1 here
abbrev standard : ResourcePolicy whole
standard = record {
  mode = "balanced";
  cpu_cores = pos 4;
  significance_simulations = pos 2000;
  hpo_trials_per_parameter = pos 100;
  hpo_best_candidates = pos 20;
  monte_carlo_scenarios = pos 500;
  synthesis_inspect_limit = pos 25;
  synthesis_generate_limit = pos 25;
  synthesis_low_watermark = pos 5;
  synthesis_min_new_concepts = pos 10;
  synthesis_max_improvements = pos 15;
  synthesis_max_revision_depth = pos 3;
  synthesis_failure_diagnosis_limit = pos 8;
  synthesis_retry_cooldown_seconds = pos 300;
  synthesis_lease_seconds = pos 3600;
  claim_timeout_seconds = pos 7200;
  execution_batch_size = pos 8;
  execution_parallelism = pos 1;
  active_ready_limit = pos 3;
  executor_infrastructure_failure_limit = pos 10;
  analysis_cohort_min = pos 4;
  analysis_cohort_max = pos 8;
  analysis_parallelism = pos 1;
  analyzer_timeout_seconds = pos 900;
  minimum_trades = pos 50;
  minimum_trades_per_year = pos 20;
  minimum_trade_floor = pos 12;
  analyzer_retry_limit = pos 1;
  significance_fdr_level = 1;
  hpo_route_dominance_percentage = 50;
  maximum_drawdown_percentage = 30;
  minimum_sharpe_ratio = 1;
  minimum_profit_factor = 1;
  maximum_holdout_degradation_percentage = 50;
  minimum_expectancy = 0;
  portfolio_correlation_threshold = 1;
  portfolio_capacity_utilization_limit = 1;
  evaluation_windows = defaults;
}

abbrev nine : List ℕ
nine = 1 ∷ 2 ∷ 3 ∷ 4 ∷ 5 ∷ 6 ∷ 7 ∷ 8 ∷ 9 ∷ []

checked_policy-Balanced_example :
    (chunks : List (List ℕ)) × (balanced_chunks (pos_part standard.analysis_cohort_max) nine
      ≡ ok chunks)
    × (pos_part standard.analysis_cohort_max ≤ 8)
    × Balanced (pos_part standard.analysis_cohort_max) nine chunks
unfolding checked_policy check_counts check_limits check_rates
checked_policy-Balanced_example = checked_policy-Balanced whole standard nine refl

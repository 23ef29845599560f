-- ===== src/ResourcePolicy.antt =====
-- `ResourcePolicy` of src/ats_lab/resources.py with the checks of its `__post_init__`.
pub mod Limits
mod Samples
use algorithmic_trading_stra.Base.{
  String, Bool, not, ◌&&◌, ◌||◌, List, [], ◌∷◌, str_eq, if◌then◌else◌,
}
use algorithmic_trading_stra.Base.Int.{ℤ, pos, ◌+ℤ◌, ltb_ℤ, leb_ℤ, eqb_ℤ}
use algorithmic_trading_stra.Base.Texts.{◌<>◌}
use algorithmic_trading_stra.Base.Outcome.{Result, ok, value_error, ◌>>=◌, ◌>>◌, raise_if}
use algorithmic_trading_stra.EvaluationWindows.{EvaluationWindowPolicy}
use algorithmic_trading_stra.Floats.{Floats}

module _ (F : Floats) where
  pub record ResourcePolicy : Type 0 where
    pub mode : String
    pub cpu_cores : ℤ
    pub significance_simulations : ℤ
    pub hpo_trials_per_parameter : ℤ
    pub hpo_best_candidates : ℤ
    pub monte_carlo_scenarios : ℤ
    pub synthesis_inspect_limit : ℤ
    pub synthesis_generate_limit : ℤ
    pub synthesis_low_watermark : ℤ
    pub synthesis_min_new_concepts : ℤ
    pub synthesis_max_improvements : ℤ
    pub synthesis_max_revision_depth : ℤ
    pub synthesis_failure_diagnosis_limit : ℤ
    pub synthesis_retry_cooldown_seconds : ℤ
    pub synthesis_lease_seconds : ℤ
    pub claim_timeout_seconds : ℤ
    pub execution_batch_size : ℤ
    pub execution_parallelism : ℤ
    pub active_ready_limit : ℤ
    pub executor_infrastructure_failure_limit : ℤ
    pub analysis_cohort_min : ℤ
    pub analysis_cohort_max : ℤ
    pub analysis_parallelism : ℤ
    pub analyzer_timeout_seconds : ℤ
    pub minimum_trades : ℤ
    pub minimum_trades_per_year : ℤ
    pub minimum_trade_floor : ℤ
    pub analyzer_retry_limit : ℤ
    pub significance_fdr_level : F.Float
    pub hpo_route_dominance_percentage : F.Float
    pub maximum_drawdown_percentage : F.Float
    pub minimum_sharpe_ratio : F.Float
    pub minimum_profit_factor : F.Float
    pub maximum_holdout_degradation_percentage : F.Float
    pub minimum_expectancy : F.Float
    pub portfolio_correlation_threshold : F.Float
    pub portfolio_capacity_utilization_limit : F.Float
    pub evaluation_windows : EvaluationWindowPolicy

  -- one limit of the first loop: `synthesis_low_watermark` may be 0
  pub record Limit : Type 0 where
    pub name : String
    pub value : ℤ

  abbrev check_limit : Limit → Result (Unit {0})
  check_limit l =
      if str_eq l.name "synthesis_low_watermark"
      then raise_if (ltb_ℤ l.value (pos 0))
          (value_error "resources.synthesis_low_watermark must be non-negative")
      else raise_if (ltb_ℤ l.value (pos 1))
          (value_error ("resources." <> l.name <> " must be positive"))

  unfoldable pub check_limits : List Limit → Result (Unit {0})
  check_limits [] = ok tt
  check_limits (l ∷ ls) = check_limit l >> check_limits ls

  abbrev pub limits : ResourcePolicy → List Limit
  limits p =
      record { name = "cpu_cores"; value = p.cpu_cores }
      ∷ record { name = "significance_simulations"; value = p.significance_simulations }
      ∷ record { name = "hpo_trials_per_parameter"; value = p.hpo_trials_per_parameter }
      ∷ record { name = "hpo_best_candidates"; value = p.hpo_best_candidates }
      ∷ record { name = "monte_carlo_scenarios"; value = p.monte_carlo_scenarios }
      ∷ record { name = "synthesis_inspect_limit"; value = p.synthesis_inspect_limit }
      ∷ record { name = "synthesis_generate_limit"; value = p.synthesis_generate_limit }
      ∷ record { name = "synthesis_low_watermark"; value = p.synthesis_low_watermark }
      ∷ record { name = "synthesis_min_new_concepts"; value = p.synthesis_min_new_concepts }
      ∷ record { name = "synthesis_max_improvements"; value = p.synthesis_max_improvements }
      ∷ record { name = "synthesis_max_revision_depth"; value = p.synthesis_max_revision_depth }
      ∷ record {
        name = "synthesis_failure_diagnosis_limit";
        value = p.synthesis_failure_diagnosis_limit;
      }
      ∷ record {
        name = "synthesis_retry_cooldown_seconds";
        value = p.synthesis_retry_cooldown_seconds;
      }
      ∷ record { name = "synthesis_lease_seconds"; value = p.synthesis_lease_seconds }
      ∷ record { name = "claim_timeout_seconds"; value = p.claim_timeout_seconds }
      ∷ record { name = "execution_batch_size"; value = p.execution_batch_size }
      ∷ record { name = "execution_parallelism"; value = p.execution_parallelism }
      ∷ record { name = "active_ready_limit"; value = p.active_ready_limit }
      ∷ record {
        name = "executor_infrastructure_failure_limit";
        value = p.executor_infrastructure_failure_limit;
      }
      ∷ record { name = "analysis_cohort_min"; value = p.analysis_cohort_min }
      ∷ record { name = "analysis_cohort_max"; value = p.analysis_cohort_max }
      ∷ record { name = "analysis_parallelism"; value = p.analysis_parallelism }
      ∷ record { name = "analyzer_timeout_seconds"; value = p.analyzer_timeout_seconds }
      ∷ record { name = "minimum_trades"; value = p.minimum_trades }
      ∷ record { name = "minimum_trades_per_year"; value = p.minimum_trades_per_year }
      ∷ record { name = "minimum_trade_floor"; value = p.minimum_trade_floor }
      ∷ []

  -- `0 < float(value) <= bound`
  abbrev pub within_range : F.Float → F.Float → Bool
  within_range bound value = F.lt (F.of_ℕ 0) value && F.le value bound

  abbrev check_range : String → String → F.Float → F.Float → Result (Unit {0})
  check_range name range bound value =
      raise_if (not (within_range bound value))
        (value_error ("resources." <> name <> " must be in " <> range))

  abbrev check_sign : String → F.Float → Result (Unit {0})
  check_sign name value =
      raise_if (F.lt value (F.of_ℕ 0))
        (value_error ("resources." <> name <> " must be non-negative"))

  -- the checks on the loop, which are made before those on the rates
  unfoldable pub check_counts : ResourcePolicy → Result (Unit {0})
  unfolding check_limits
  check_counts p = do
    raise_if (not (str_eq p.mode "balanced" || str_eq p.mode "compute_heavy"))
        (value_error "resources.mode must be balanced or compute_heavy")
    check_limits (limits p)
    raise_if (ltb_ℤ p.significance_simulations (pos 2000))
        (value_error "resources.significance_simulations must be at least 2000")
    check_range "significance_fdr_level" "(0, 1]" (F.of_ℕ 1) p.significance_fdr_level
    raise_if (ltb_ℤ p.monte_carlo_scenarios (pos 500))
        (value_error "resources.monte_carlo_scenarios must be at least 500")
    raise_if (ltb_ℤ p.synthesis_inspect_limit p.synthesis_generate_limit)
        (value_error "resources.synthesis_generate_limit cannot exceed inspect limit")
    raise_if
        (not (
          eqb_ℤ (p.synthesis_min_new_concepts +ℤ p.synthesis_max_improvements)
            p.synthesis_generate_limit))
        (value_error (
          "resources.synthesis_min_new_concepts + synthesis_max_improvements "
          <> "must equal synthesis_generate_limit"))
    raise_if
        (not (
          leb_ℤ (pos 4) p.analysis_cohort_min
          && leb_ℤ p.analysis_cohort_min p.analysis_cohort_max
          && leb_ℤ p.analysis_cohort_max (pos 8)))
        (value_error "resources analysis cohort must satisfy 4 <= min <= max <= 8")
    raise_if (ltb_ℤ (pos 4) p.analysis_parallelism)
        (value_error "resources.analysis_parallelism must be at most 4")
    raise_if (ltb_ℤ p.cpu_cores p.execution_parallelism)
        (value_error "resources.execution_parallelism must not exceed cpu_cores")
    raise_if
        (not (
          leb_ℤ (pos 600) p.analyzer_timeout_seconds && leb_ℤ p.analyzer_timeout_seconds (pos 900)))
        (value_error "resources.analyzer_timeout_seconds must be between 600 and 900")
    raise_if (not (eqb_ℤ p.analyzer_retry_limit (pos 1)))
        (value_error "resources.analyzer_retry_limit must equal 1")

  unfoldable pub check_rates : ResourcePolicy → Result (Unit {0})
  check_rates p = do
    check_sign "maximum_drawdown_percentage" p.maximum_drawdown_percentage
    check_sign "minimum_profit_factor" p.minimum_profit_factor
    check_sign "maximum_holdout_degradation_percentage" p.maximum_holdout_degradation_percentage
    check_sign "minimum_expectancy" p.minimum_expectancy
    check_range "hpo_route_dominance_percentage" "(0, 100]" (F.of_ℕ 100)
        p.hpo_route_dominance_percentage
    check_range "portfolio_correlation_threshold" "(0, 1]" (F.of_ℕ 1)
        p.portfolio_correlation_threshold
    check_range "portfolio_capacity_utilization_limit" "(0, 1]" (F.of_ℕ 1)
        p.portfolio_capacity_utilization_limit

  unfoldable pub checked_policy : ResourcePolicy → Result (Unit {0})
  checked_policy p = check_counts p >> check_rates p

-- ===== src/Gates/Promotion.antt =====
-- `evaluate_promotion` of src/ats_lab/gates.py: validation, robustness and cost evidence for a claim of
-- paper-trade readiness.
use algorithmic_trading_stra.Base.{
  String, Bool, true, false, not, ◌&&◌, ◌||◌, Option, none, some, List, [], ◌∷◌, ◌++◌,
  if◌then◌else◌, select, any, is_some, map, str_eq,
}
use algorithmic_trading_stra.Base.Int.{pos, ltb_ℤ}
use algorithmic_trading_stra.Base.Outcome.{Result, ok, ◌>>=◌}
use algorithmic_trading_stra.Floats.{Floats}
use algorithmic_trading_stra.Models.{EvidenceSplit}
use algorithmic_trading_stra.Gates.Evidence.{
  Evidence, Policy, has_route, is_cost_sensitivity, is_monte_carlo, is_out_of_sample, is_split,
}
use algorithmic_trading_stra.Gates.Findings.{
  Findings, no_findings, Outcome, passes, fails, lacks, note, fail_if, Decision, decide,
  without_cost,
}
use algorithmic_trading_stra.Gates.Windows.{overlaps_training}
use algorithmic_trading_stra.Gates.Robustness.{robust_outcome}
use algorithmic_trading_stra.Gates.Quality.{evaluate_gates, is_nil}

-- what a test over values says where a missing value lacks the evidence and no values pass
abbrev pub over_present {ℓ} : {A : Type ℓ} → (A → Bool) → List (Option A) → Outcome
over_present bad values =
    if any (λ v. not (is_some v)) values
    then lacks
    else if any (λ v. elim v [ none ↦ false | some x ↦ bad x ]) values
    then fails
    else passes

module _ (F : Floats) where
  open F use {Float, of_ℕ, lt, le}

  abbrev pub no_split : Evidence F → Bool
  no_split row = elim row.evidence_split [ none ↦ true | some _ ↦ false ]

  unfoldable pub is_oos : Evidence F → Bool
  is_oos row = is_split F EvidenceSplit.oos row || is_out_of_sample F row && no_split row

  abbrev pub is_training : Evidence F → Bool
  is_training row = is_split F EvidenceSplit.train row || is_split F EvidenceSplit.holdout row

  unfoldable pub expectancy_gate : Policy F → List (Evidence F) → Outcome
  expectancy_gate policy rows =
      over_present (λ e. le e policy.minimum_expectancy)
        (map (λ (r : Evidence F). r.expectancy) rows)

  -- `_evaluate_validation_lane`
  unfoldable pub validation_lane :
      String → Policy F → List (Evidence F) → Findings → Result Findings
  validation_lane name policy rows f =
      if is_nil rows || any (λ r. not (has_route F r)) rows
      then ok (note name lacks f)
      else (evaluate_gates F policy rows [] [] >>= λ quality. ok (
          note "expectancy" (expectancy_gate policy rows) (record f {
            failed = f.failed ++ quality.findings.failed;
            missing = f.missing ++ without_cost quality.findings.missing;
          })))

  unfoldable pub exceeds : Option Float → Option Float → Bool
  exceeds (some a) (some b) = lt b a
  exceeds _ _ = false

  -- one row of `_monte_carlo_interpretation_findings`
  unfoldable pub interpret : Evidence F → Findings → Findings
  unfolding exceeds
  interpret row f =
      fail_if
        (is_some row.net_profit_percentage
          && exceeds (some (of_ℕ 0)) row.monte_carlo_worst_5pct_net_profit_percentage)
        "mc_worst_tail_loss"
        (fail_if (exceeds row.net_profit_percentage row.monte_carlo_best_5pct_net_profit_percentage)
          "mc_original_above_best_tail" f)

  unfoldable pub interpretation : List (Evidence F) → Findings → Findings
  interpretation [] f = f
  interpretation (row ∷ rows) f = interpretation rows (interpret row f)

  unfoldable pub method_gate : List (Evidence F) → Outcome
  method_gate rows =
      over_present (λ m. not (str_eq m "candle_based"))
        (map (λ (r : Evidence F). r.monte_carlo_method) rows)

  unfoldable pub scenario_gate : Policy F → List (Evidence F) → Outcome
  scenario_gate policy rows =
      over_present (λ n. ltb_ℤ n (pos policy.monte_carlo_scenarios))
        (map (λ (r : Evidence F). r.monte_carlo_scenarios) rows)

  unfoldable pub monte_carlo_gates : Policy F → List (Evidence F) → Findings → Findings
  monte_carlo_gates policy rows f =
      let robust =
        note "candles_based_monte_carlo_path_robustness" (robust_outcome F policy rows) f in
      if is_nil rows
      then robust
      else interpretation rows (
          note "monte_carlo_scenarios" (scenario_gate policy rows)
            (note "monte_carlo_method" (method_gate rows) robust))

  unfoldable pub is_walk_forward : Evidence F → Bool
  is_walk_forward row = is_split F EvidenceSplit.rolling row && elim row.walk_forward_method [
    | none ↦ false
    | some m ↦ str_eq m "walk_forward" || str_eq m "rolling"
  ]

  unfoldable pub walk_forward_gate : List (Evidence F) → Findings → Findings
  walk_forward_gate rows f =
      if is_nil rows
      then note "walk_forward_protocol" lacks f
      else note "walk_forward_windows"
          (over_present (λ n. ltb_ℤ n (pos 2))
            (map (λ (r : Evidence F). r.walk_forward_windows) rows))
          f

  unfoldable pub promotion_findings : Policy F → List (Evidence F) → Result Findings
  promotion_findings policy rows =
      let training = select is_training rows in
      let oos = select is_oos rows in
      let overlapping = any (λ r. overlaps_training F r training) oos in
      let eligible = select (λ r. not (overlaps_training F r training)) oos in
      validation_lane "oos_validation" policy eligible
        (fail_if overlapping "oos_training_overlap" no_findings)
      >>= λ f.
          validation_lane "walk_forward" policy (select (is_split F EvidenceSplit.rolling) rows) f
          >>= λ g. ok (
              note "fees_cost_sensitivity"
                (robust_outcome F policy (select (is_cost_sensitivity F) rows))
                (walk_forward_gate (select is_walk_forward rows)
                  (monte_carlo_gates policy (select (is_monte_carlo F) rows) g)))

  unfoldable pub evaluate_promotion : Policy F → List (Evidence F) → Result Decision
  unfolding promotion_findings
  evaluate_promotion policy rows = promotion_findings policy rows >>= λ f. ok (decide f)

-- ===== src/Gates/Sound/Verdicts.antt =====
-- `evaluate_gates` of src/ats_lab/gates.py: that it returns, and what its verdicts mean.
use algorithmic_trading_stra.Base.{
  Bool, true, false, Option, List, [], ◌∷◌, ◌≡◌, ◌≢◌, refl, ◌⊎◌, any, All, map, if◌then◌else◌,
  select, ◌||◌,
}
use algorithmic_trading_stra.Base.Outcome.{ok}
use algorithmic_trading_stra.Floats.{Floats}
use algorithmic_trading_stra.Models.{EvidenceSplit}
use algorithmic_trading_stra.Gates.Evidence.{Evidence, Policy, is_cost_sensitivity, is_split}
use algorithmic_trading_stra.Gates.Findings.{
  Findings, no_findings, IsCleanButCost, mark-IsCleanButCost, mark_cost-IsCleanButCost, Outcome,
  passes, fails, mark,
}
use algorithmic_trading_stra.Gates.Robustness.{robust_outcome}
use algorithmic_trading_stra.Gates.Quality.{
  Route, is_nil, minimum_gate, maximum_gate, minimum_trade_gate, metric_gates, route_completion,
  evaluate_gates, GateDecision, degradation_gate, degraded, holdout_degradation,
}
use algorithmic_trading_stra.Gates.Sound.Metrics.{
  Holds, over_values-Hold, All-map, TradesEnough, minimum_trade_gate-ok,
  minimum_trade_gate-TradesEnough,
}

module _ (F : Floats) where
  open F use {Float, of_ℕ, lt, le}

  -- What the metric gates ask of a row: each metric is there and within the policy.
  pub record RowPasses (policy : Policy F) (row : Evidence F) : Type 0 where
    pub trades : TradesEnough F policy row
    pub net_profit : Holds (λ v. le v (of_ℕ 0)) row.net_profit_percentage
    pub max_drawdown :
        Holds (λ v. lt policy.maximum_drawdown_percentage v) row.max_drawdown_percentage
    pub sharpe : Holds (λ v. lt v policy.minimum_sharpe_ratio) row.sharpe_ratio
    pub profit_factor : Holds (λ v. lt v policy.minimum_profit_factor) row.profit_factor

  zip_rows :
      (policy : Policy F) (rows : List (Evidence F))
      → All (TradesEnough F policy) rows
      → All (λ (r : Evidence F). Holds (λ v. le v (of_ℕ 0)) r.net_profit_percentage) rows
      → All
          (λ (r : Evidence F).
            Holds (λ v. lt policy.maximum_drawdown_percentage v) r.max_drawdown_percentage)
          rows
      → All (λ (r : Evidence F). Holds (λ v. lt v policy.minimum_sharpe_ratio) r.sharpe_ratio) rows
      → All
          (λ (r : Evidence F). Holds (λ v. lt v policy.minimum_profit_factor) r.profit_factor)
          rows
      → All (RowPasses policy) rows
  zip_rows policy [] a b c d e = tt
  zip_rows policy (row ∷ rows) a b c d e = (
    record {
      trades = a.0;
      net_profit = b.0;
      max_drawdown = c.0;
      sharpe = d.0;
      profit_factor = e.0;
    },
    zip_rows policy rows a.1 b.1 c.1 d.1 e.1,
  )

  minimum_gate-Holds :
      (field : Evidence F → Option Float) (t : Float) (strict : Bool) (rows : List (Evidence F))
      → minimum_gate F field t strict rows ≡ passes
      → All (λ r. Holds (λ v. if strict then le v t else lt v t) (field r)) rows
  unfolding minimum_gate
  minimum_gate-Holds field t strict rows h =
      All-map _ field rows (over_values-Hold _ (map field rows) h)

  maximum_gate-Holds :
      (field : Evidence F → Option Float) (t : Float) (rows : List (Evidence F))
      → maximum_gate F field t rows ≡ passes
      → All (λ r. Holds (λ v. lt t v) (field r)) rows
  unfolding maximum_gate
  maximum_gate-Holds field t rows h = All-map _ field rows (over_values-Hold _ (map field rows) h)

  -- The gate of holdout degradation leaves no more findings than there were.
  degradation_gate-IsCleanButCost :
      (policy : Policy F) (rows : List (Evidence F)) (f : Findings)
      → IsCleanButCost (degradation_gate F policy rows f)
      → IsCleanButCost f
  unfolding degradation_gate
  degradation_gate-IsCleanButCost policy rows f h = go _ h
    where
      go :
          (b : Bool)
          → IsCleanButCost (
              if b
              then mark "train_holdout_degradation"
                  (degraded F policy (holdout_degradation F rows))
                  f
              else f)
          → IsCleanButCost f
      go true h = (mark-IsCleanButCost "train_holdout_degradation" _ f refl h).0
      go false h = h

  pub metric_gates-RowPasses :
      (policy : Policy F) (rows : List (Evidence F)) (f g : Findings)
      → minimum_trade_gate F policy rows f ≡ ok g
      → IsCleanButCost (metric_gates F policy rows g)
      → IsCleanButCost f
        × (is_nil rows ≡ false)
        × All (RowPasses policy) rows
        × (robust_outcome F policy (select (is_cost_sensitivity F) rows) ≢ fails)
  unfolding metric_gates
  metric_gates-RowPasses policy rows f g e h =
      let cost = mark_cost-IsCleanButCost _ _ (degradation_gate-IsCleanButCost policy rows _ h) in
      let factor = mark-IsCleanButCost "profit_factor" _ _ refl cost.0 in
      let sharpe = mark-IsCleanButCost "sharpe" _ _ refl factor.0 in
      let drawdown = mark-IsCleanButCost "max_drawdown" _ _ refl sharpe.0 in
      let profit = mark-IsCleanButCost "net_profit" _ _ refl drawdown.0 in
      let trades = minimum_trade_gate-TradesEnough F policy rows f g e profit.0 in
      (
        trades.0,
        trades.1,
        zip_rows policy rows trades.2 (minimum_gate-Holds _ _ true rows profit.1)
            (maximum_gate-Holds _ _ rows drawdown.1) (minimum_gate-Holds _ _ false rows sharpe.1)
            (minimum_gate-Holds _ _ false rows factor.1),
        cost.1,
      )

  abbrev pub has_training : List (Evidence F) → Bool
  has_training = any (λ r. is_split F EvidenceSplit.train r || is_split F EvidenceSplit.holdout r)

  -- What a verdict of `pass` promises.
  pub record Passed (policy : Policy F) (rows : List (Evidence F)) (expected observed : List Route)
      : Type 0 where
    pub some_rows : is_nil rows ≡ false
    pub each_row : All (RowPasses policy) rows
    pub routes : route_completion F rows expected observed ≡ passes
    pub costs : robust_outcome F policy (select (is_cost_sensitivity F) rows) ≡ passes
    pub holdout :
        (has_training rows ≡ false)
        ⊎ Holds (lt policy.maximum_holdout_degradation_percentage) (holdout_degradation F rows)

  -- `evaluate_gates` returns a decision for every policy, rows and routes whose fields are texts or missing:
  -- it does not raise, malformed window dates included.
  pub evaluate_gates-returns :
      (policy : Policy F) (rows : List (Evidence F)) (expected observed : List Route)
      → (d : GateDecision F) × (evaluate_gates F policy rows expected observed ≡ ok d)
  unfolding evaluate_gates
  evaluate_gates-returns policy rows expected observed =
      let trades =
        minimum_trade_gate-ok F policy rows
          (mark "route_completion" (route_completion F rows expected observed) no_findings) in
      rw trades.1 (_, refl)

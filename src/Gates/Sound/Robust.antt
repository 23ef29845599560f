-- ===== src/Gates/Sound/Robust.antt =====
-- `_robustness_state` of src/ats_lab/gates.py: what robust Monte Carlo or cost-stress evidence is.
use algorithmic_trading_stra.Base.{
  ℕ, true, false, Option, none, some, List, [], ◌∷◌, ◌≡◌, refl, any, All, arith, some_or,
}
use algorithmic_trading_stra.Base.Int.{pos, ltb_ℤ}
use algorithmic_trading_stra.Floats.{Floats}
use algorithmic_trading_stra.Gates.Evidence.{
  Evidence, Policy, has_route, has_execution_provenance, has_core_metrics, is_rejected,
  effective_leverage,
}
use algorithmic_trading_stra.Gates.Findings.{Outcome, passes, fails, lacks}
use algorithmic_trading_stra.Gates.Windows.{required_trade_count}
use algorithmic_trading_stra.Gates.Robustness.{
  is_weak, judged, robustness_state, is_fails, is_lacks, robust_outcome,
}
use algorithmic_trading_stra.Gates.Quality.{is_nil}

module _ (F : Floats) where
  open F use {of_ℕ, lt, le, mul}

  -- No metric of the row is weak: a profit, a drawdown within the limit at the row's leverage, an
  -- expectancy above its floor, a Sharpe ratio and a profit factor at theirs, and trades at the floor.
  pub record Strong (policy : Policy F) (floor : ℕ) (row : Evidence F) : Type 0 where
    pub profit : le (some_or row.net_profit_percentage (of_ℕ 0)) (of_ℕ 0) ≡ false
    pub drawdown :
        lt
          (mul policy.maximum_drawdown_percentage (effective_leverage F row))
          (some_or row.max_drawdown_percentage (of_ℕ 0))
        ≡ false
    pub expectancy : le (some_or row.expectancy (of_ℕ 0)) policy.minimum_expectancy ≡ false
    pub sharpe : lt (some_or row.sharpe_ratio (of_ℕ 0)) policy.minimum_sharpe_ratio ≡ false
    pub factor : lt (some_or row.profit_factor (of_ℕ 0)) policy.minimum_profit_factor ≡ false
    pub trades : ltb_ℤ (some_or row.trade_count (pos 0)) (pos floor) ≡ false

  is_weak-Strong :
      (policy : Policy F) (floor : ℕ) (row : Evidence F)
      → is_weak F policy floor row ≡ false
      → Strong policy floor row
  unfolding is_weak
  is_weak-Strong policy floor row h = record {
    profit = ground arith;
    drawdown = ground arith;
    expectancy = ground arith;
    sharpe = ground arith;
    factor = ground arith;
    trades = ground arith;
  }

  -- Robust evidence of one row: its route, provenance and metrics are there, no verdict rejects it,
  -- and no metric is weak, under the trade floor of its own window.
  pub record Robust (policy : Policy F) (row : Evidence F) : Type 0 where
    pub routed : has_route F row ≡ true
    pub provenance : has_execution_provenance F row ≡ true
    pub metrics : has_core_metrics F row ≡ true
    pub accepted : is_rejected F row ≡ false
    pub strong :
        (floor : ℕ) × (required_trade_count F policy row ≡ some floor) × Strong policy floor row

  judged-passes :
      (policy : Policy F) (row : Evidence F) (o : Option ℕ)
      → judged F policy row o ≡ passes
      → (floor : ℕ) × (o ≡ some floor) × Strong policy floor row
  judged-passes policy row none h = cc
  judged-passes policy row (some floor) h =
      (floor, refl, is_weak-Strong policy floor row (ground arith))

  state-Robust :
      (policy : Policy F) (row : Evidence F)
      → robustness_state F policy row ≡ passes
      → Robust policy row
  unfolding robustness_state
  state-Robust policy row h = record {
    routed = ground arith;
    provenance = ground arith;
    metrics = ground arith;
    accepted = ground arith;
    strong = judged-passes policy row (required_trade_count F policy row) (ground arith);
  }

  states-Robust :
      (policy : Policy F) (rows : List (Evidence F))
      → any (λ r. is_fails F (robustness_state F policy r)) rows ≡ false
      → any (λ r. is_lacks F (robustness_state F policy r)) rows ≡ false
      → All (Robust policy) rows
  states-Robust policy [] h e = tt
  states-Robust policy (row ∷ rows) h e = (
    state-Robust policy row
        (passes_only (robustness_state F policy row) (ground arith) (ground arith)),
    states-Robust policy rows (ground arith) (ground arith),
  )
    where
      passes_only : (o : Outcome) → is_fails F o ≡ false → is_lacks F o ≡ false → o ≡ passes
      passes_only passes h e = refl
      passes_only fails h e = cc
      passes_only lacks h e = cc

  -- Robustness evidence passes only where there are rows and each is robust: routed, with the provenance
  -- of a run, complete in its metrics, not rejected, with a profit, a drawdown within the limit at its
  -- leverage, an expectancy above its floor, a Sharpe ratio and a profit factor at theirs, and at least as
  -- many trades as the floor of its own window.
  pub robust_outcome-Robust :
      (policy : Policy F) (rows : List (Evidence F))
      → robust_outcome F policy rows ≡ passes
      → (is_nil rows ≡ false) × All (Robust policy) rows
  unfolding robust_outcome
  robust_outcome-Robust policy [] h = cc
  robust_outcome-Robust policy (row ∷ rows) h =
      (refl, states-Robust policy (row ∷ rows) (ground arith) (ground arith))

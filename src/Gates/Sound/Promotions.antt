-- ===== src/Gates/Sound/Promotions.antt =====
-- `evaluate_promotion` of src/ats_lab/gates.py: it never raises, and what an allowed promotion had.
use mathlib.Core.Path.{subst}
use algorithmic_trading_stra.Base.{
  Bool, true, false, not, ◌||◌, ◌&&◌, Option, none, some, is_some, List, [], ◌∷◌, ◌++◌, ◌≡◌, refl,
  sym, ap, ◌∙◌, any, All, map, arith, if◌then◌else◌, select, inl, inr, String, str_eq, Bool-cases,
}
use algorithmic_trading_stra.Base.Int.{pos, ltb_ℤ}
use algorithmic_trading_stra.Base.Outcome.{ok, ◌>>=◌, >>=-eq-ok, ok-inj}
use algorithmic_trading_stra.Floats.{Floats}
use algorithmic_trading_stra.Models.{EvidenceSplit}
use algorithmic_trading_stra.Gates.Evidence.{
  Evidence, Policy, has_route, is_cost_sensitivity, is_monte_carlo, is_split,
}
use algorithmic_trading_stra.Gates.Findings.{
  Findings, no_findings, IsClean, IsCleanButCost, note, note-IsClean, fail_if, Decision,
  decide-IsClean, append-nil, without_cost, passes, fails, lacks,
}
use algorithmic_trading_stra.Gates.Windows.{overlaps_training}
use algorithmic_trading_stra.Gates.Robustness.{robust_outcome}
use algorithmic_trading_stra.Gates.Quality.{is_nil, evaluate_gates, GateDecision}
use algorithmic_trading_stra.Gates.Promotion.{
  over_present, is_oos, is_training, expectancy_gate, validation_lane, exceeds, interpret,
  interpretation, method_gate, scenario_gate, monte_carlo_gates, is_walk_forward, walk_forward_gate,
  promotion_findings, evaluate_promotion,
}
use algorithmic_trading_stra.Gates.Sound.Metrics.{Holds, values-Hold, All-map}
use algorithmic_trading_stra.Gates.Sound.Verdicts.{
  RowPasses, metric_gates-RowPasses, evaluate_gates-returns,
}

over_present-Hold :
    {A : Type 0} (bad : A → Bool) (vs : List (Option A))
    → over_present bad vs ≡ passes
    → All (Holds bad) vs
over_present-Hold bad vs h = values-Hold bad vs (ground arith) (ground arith)

fail_if-IsClean :
    (b : Bool) (name : String) (f : Findings) → IsClean (fail_if b name f) → IsClean f × (b ≡ false)
fail_if-IsClean true name f h = cc ((note-IsClean name fails f h).1)
fail_if-IsClean false name f h = ((note-IsClean name passes f h).0, refl)

module _ (F : Floats) where
  open F use {Float, of_ℕ, lt, le}

  field-Holds :
      {A : Type 0} (bad : A → Bool) (field : Evidence F → Option A) (rows : List (Evidence F))
      → over_present bad (map field rows) ≡ passes
      → All (λ r. Holds bad (field r)) rows
  field-Holds bad field rows h =
      All-map (Holds bad) field rows (over_present-Hold bad (map field rows) h)

  -- What a validation lane asks of its rows.
  pub record LanePasses (policy : Policy F) (rows : List (Evidence F)) : Type 0 where
    pub some_rows : is_nil rows ≡ false
    pub routed : any (λ r. not (has_route F r)) rows ≡ false
    pub each_row : All (RowPasses F policy) rows
    pub expectancy :
        All (λ (r : Evidence F). Holds (λ e. le e policy.minimum_expectancy) r.expectancy) rows

  evaluate_gates-RowPasses :
      (policy : Policy F) (rows : List (Evidence F)) (d : GateDecision F)
      → evaluate_gates F policy rows [] [] ≡ ok d
      → IsCleanButCost d.findings
      → All (RowPasses F policy) rows
  unfolding evaluate_gates
  evaluate_gates-RowPasses policy rows d e h =
      let parts = >>=-eq-ok _ _ e in
      (metric_gates-RowPasses F policy rows _ parts.0 parts.1
        (subst IsCleanButCost (sym (ap (λ (d : GateDecision F). d.findings) (ok-inj parts.2))) h)).2

  expectancy_gate-Holds :
      (policy : Policy F) (rows : List (Evidence F))
      → expectancy_gate F policy rows ≡ passes
      → All (λ (r : Evidence F). Holds (λ e. le e policy.minimum_expectancy) r.expectancy) rows
  unfolding expectancy_gate
  expectancy_gate-Holds policy rows h = field-Holds _ _ rows h

  validation_lane-ok :
      (name : String) (policy : Policy F) (rows : List (Evidence F)) (f : Findings)
      → (g : Findings) × (validation_lane F name policy rows f ≡ ok g)
  unfolding validation_lane
  validation_lane-ok name policy rows f =
      elim (Bool-cases (is_nil rows || any (λ r. not (has_route F r)) rows)) [
        | inl e ↦ rw e (_, refl)
        | inr e ↦ rw e (rw (evaluate_gates-returns F policy rows [] []).1 (_, refl))
      ]

  validation_lane-LanePasses :
      (name : String) (policy : Policy F) (rows : List (Evidence F)) (f g : Findings)
      → validation_lane F name policy rows f ≡ ok g
      → IsClean g
      → IsClean f × LanePasses policy rows
  unfolding validation_lane
  validation_lane-LanePasses name policy rows f g e h = go _ refl e
    where
      go :
          (b : Bool)
          → is_nil rows || any (λ r. not (has_route F r)) rows ≡ b
          → (if b
              then ok (note name lacks f)
              else (evaluate_gates F policy rows [] [] >>= λ quality. ok (
                  note "expectancy" (expectancy_gate F policy rows) (record f {
                    failed = f.failed ++ quality.findings.failed;
                    missing = f.missing ++ without_cost quality.findings.missing;
                  }))))
            ≡ ok g
          → IsClean f × LanePasses policy rows
      go true _ e = cc ((note-IsClean name lacks f (subst IsClean (sym (ok-inj e)) h)).1)
      go false b e =
          let there : is_nil rows ≡ false = ground arith in
          let routed : any (λ r. not (has_route F r)) rows ≡ false = ground arith in
          let parts = >>=-eq-ok _ _ e in
          let quality = parts.0 in
          let noted =
            note-IsClean "expectancy" (expectancy_gate F policy rows)
              (record f {
                failed = f.failed ++ quality.findings.failed;
                missing = f.missing ++ without_cost quality.findings.missing;
              })
              (subst IsClean (sym (ok-inj parts.2)) h) in
          let failed = append-nil f.failed quality.findings.failed noted.0.0 in
          let missing = append-nil f.missing (without_cost quality.findings.missing) noted.0.1 in
          (
            (failed.0, missing.0),
            record {
              some_rows = there;
              routed = routed;
              each_row = evaluate_gates-RowPasses policy rows quality parts.1 (failed.1, missing.1);
              expectancy = expectancy_gate-Holds policy rows noted.1;
            },
          )

  -- The profit of the row lies within the tails of its Monte Carlo paths, where these are known: the
  -- worst tail is no loss, and the profit is not above the best tail.
  abbrev pub WithinTails : Evidence F → Type 0
  WithinTails row =
      ((p w : Float)
        → row.net_profit_percentage ≡ some p
        → row.monte_carlo_worst_5pct_net_profit_percentage ≡ some w
        → lt w (of_ℕ 0) ≡ false)
      × ((p b : Float)
          → row.net_profit_percentage ≡ some p
          → row.monte_carlo_best_5pct_net_profit_percentage ≡ some b
          → lt b p ≡ false)

  worst_tail :
      (profit tail : Option Float)
      → (is_some profit && exceeds F (some (of_ℕ 0)) tail) ≡ false
      → (p w : Float) → profit ≡ some p
      → tail ≡ some w
      → lt w (of_ℕ 0) ≡ false
  unfolding exceeds
  worst_tail none tail h p w k l = cc
  worst_tail (some a) none h p w k l = cc
  worst_tail (some a) (some b) h p w k l = cc

  best_tail :
      (profit tail : Option Float)
      → exceeds F profit tail ≡ false
      → (p b : Float) → profit ≡ some p
      → tail ≡ some b
      → lt b p ≡ false
  unfolding exceeds
  best_tail none tail h p b k l = cc
  best_tail (some x) none h p b k l = cc
  best_tail (some x) (some y) h p b k l = cc

  tails_within :
      (row : Evidence F)
      → (is_some row.net_profit_percentage
          && exceeds F (some (of_ℕ 0)) row.monte_carlo_worst_5pct_net_profit_percentage)
        ≡ false
      → exceeds F row.net_profit_percentage row.monte_carlo_best_5pct_net_profit_percentage ≡ false
      → WithinTails row
  tails_within row h e = (worst_tail _ _ h, best_tail _ _ e)

  interpretation-IsClean :
      (rows : List (Evidence F)) (f : Findings)
      → IsClean (interpretation F rows f)
      → IsClean f × All WithinTails rows
  unfolding interpretation interpret
  interpretation-IsClean [] f h = (h, tt)
  interpretation-IsClean (row ∷ rows) f h =
      let rest = interpretation-IsClean rows (interpret F row f) h in
      let worst = fail_if-IsClean _ _ _ rest.0 in
      let best = fail_if-IsClean _ _ f worst.0 in
      (best.0, (tails_within row worst.1 best.1, rest.1))

  -- What the Monte Carlo evidence of a promotion has.
  pub record MonteCarloPasses (policy : Policy F) (rows : List (Evidence F)) : Type 0 where
    pub robust : robust_outcome F policy rows ≡ passes
    pub methods :
        All
          (λ (r : Evidence F). Holds (λ m. not (str_eq m "candle_based")) r.monte_carlo_method)
          rows
    pub scenarios :
        All
          (λ (r : Evidence F).
            Holds (λ n. ltb_ℤ n (pos policy.monte_carlo_scenarios)) r.monte_carlo_scenarios)
          rows
    pub tails : All WithinTails rows

  method_gate-Holds :
      (rows : List (Evidence F))
      → method_gate F rows ≡ passes
      → All
          (λ (r : Evidence F). Holds (λ m. not (str_eq m "candle_based")) r.monte_carlo_method)
          rows
  unfolding method_gate
  method_gate-Holds rows h = field-Holds _ _ rows h

  scenario_gate-Holds :
      (policy : Policy F) (rows : List (Evidence F))
      → scenario_gate F policy rows ≡ passes
      → All
          (λ (r : Evidence F).
            Holds (λ n. ltb_ℤ n (pos policy.monte_carlo_scenarios)) r.monte_carlo_scenarios)
          rows
  unfolding scenario_gate
  scenario_gate-Holds policy rows h = field-Holds _ _ rows h

  monte_carlo_gates-Passes :
      (policy : Policy F) (rows : List (Evidence F)) (f : Findings)
      → IsClean (monte_carlo_gates F policy rows f)
      → IsClean f × MonteCarloPasses policy rows
  unfolding monte_carlo_gates
  monte_carlo_gates-Passes policy [] f h =
      let parts = note-IsClean "candles_based_monte_carlo_path_robustness" _ f h in
      (parts.0, record { robust = parts.1; methods = tt; scenarios = tt; tails = tt })
  monte_carlo_gates-Passes policy (row ∷ rows) f h =
      let within = interpretation-IsClean (row ∷ rows) _ h in
      let scenarios = note-IsClean "monte_carlo_scenarios" _ _ within.0 in
      let methods = note-IsClean "monte_carlo_method" _ _ scenarios.0 in
      let robust = note-IsClean "candles_based_monte_carlo_path_robustness" _ f methods.0 in
      (
        robust.0,
        record {
          robust = robust.1;
          methods = method_gate-Holds (row ∷ rows) methods.1;
          scenarios = scenario_gate-Holds policy (row ∷ rows) scenarios.1;
          tails = within.1;
        },
      )

  -- Walk-forward rows are there, each with two windows or more.
  abbrev pub WalkForwardPasses : List (Evidence F) → Type 0
  WalkForwardPasses rows =
      (is_nil rows ≡ false)
      × All (λ (r : Evidence F). Holds (λ n. ltb_ℤ n (pos 2)) r.walk_forward_windows) rows

  walk_forward_gate-Passes :
      (rows : List (Evidence F)) (f : Findings)
      → IsClean (walk_forward_gate F rows f)
      → IsClean f × WalkForwardPasses rows
  unfolding walk_forward_gate
  walk_forward_gate-Passes [] f h = cc ((note-IsClean "walk_forward_protocol" lacks f h).1)
  walk_forward_gate-Passes (row ∷ rows) f h =
      let parts =
        note-IsClean "walk_forward_windows"
          (over_present (λ n. ltb_ℤ n (pos 2))
            (map (λ (r : Evidence F). r.walk_forward_windows) (row ∷ rows)))
          f h in
      (
        parts.0,
        (
          refl,
          field-Holds (λ n. ltb_ℤ n (pos 2)) (λ r. r.walk_forward_windows) (row ∷ rows) parts.1,
        ),
      )

  abbrev eligible : List (Evidence F) → List (Evidence F)
  eligible rows =
      select (λ r. not (overlaps_training F r (select (is_training F) rows)))
        (select (is_oos F) rows)

  -- What an allowed promotion had.
  pub record Promotable (policy : Policy F) (rows : List (Evidence F)) : Type 0 where
    pub apart :
        any (λ r. overlaps_training F r (select (is_training F) rows)) (select (is_oos F) rows)
        ≡ false
    pub out_of_sample : LanePasses policy (eligible rows)
    pub rolling : LanePasses policy (select (is_split F EvidenceSplit.rolling) rows)
    pub monte_carlo : MonteCarloPasses policy (select (is_monte_carlo F) rows)
    pub walk_forward : WalkForwardPasses (select (is_walk_forward F) rows)
    pub costs : robust_outcome F policy (select (is_cost_sensitivity F) rows) ≡ passes

  promotion_findings-Promotable :
      (policy : Policy F) (rows : List (Evidence F)) (f : Findings)
      → promotion_findings F policy rows ≡ ok f
      → IsClean f
      → Promotable policy rows
  unfolding promotion_findings
  promotion_findings-Promotable policy rows f e h =
      let first = >>=-eq-ok _ _ e in
      let second = >>=-eq-ok _ _ first.2 in
      let cost =
        note-IsClean "fees_cost_sensitivity" _ _ (subst IsClean (sym (ok-inj second.2)) h) in
      let walk = walk_forward_gate-Passes _ _ cost.0 in
      let monte = monte_carlo_gates-Passes policy _ _ walk.0 in
      let rolling = validation_lane-LanePasses "walk_forward" policy _ _ _ second.1 monte.0 in
      let oos = validation_lane-LanePasses "oos_validation" policy _ _ _ first.1 rolling.0 in
      record {
        apart = (fail_if-IsClean _ "oos_training_overlap" no_findings oos.0).1;
        out_of_sample = oos.1;
        rolling = rolling.1;
        monte_carlo = monte.1;
        walk_forward = walk.1;
        costs = cost.1;
      }

  -- `evaluate_promotion` returns a decision for every policy and rows: it never raises.
  pub evaluate_promotion-returns :
      (policy : Policy F) (rows : List (Evidence F))
      → (d : Decision) × (evaluate_promotion F policy rows ≡ ok d)
  unfolding evaluate_promotion promotion_findings
  evaluate_promotion-returns policy rows =
      let first = validation_lane-ok "oos_validation" policy (eligible rows) (
        fail_if
          (any (λ r. overlaps_training F r (select (is_training F) rows)) (select (is_oos F) rows))
          "oos_training_overlap" no_findings) in
      let second =
        validation_lane-ok "walk_forward" policy (select (is_split F EvidenceSplit.rolling) rows)
          first.0 in
      rw first.1 (rw second.1 (_, refl))

  -- A promotion that is allowed had no out-of-sample row whose window shares a day with a training row
  -- of its route; out-of-sample and rolling rows with routes, each of which passes the metric gates and
  -- the floor of expectancy; robust, candle-based Monte Carlo rows with enough scenarios, whose worst
  -- tail is no loss and whose best tail is not below the profit where these are known; walk-forward
  -- rows with two windows or more; and robust cost-stress rows.
  pub evaluate_promotion-Promotable :
      (policy : Policy F) (rows : List (Evidence F)) (d : Decision)
      → evaluate_promotion F policy rows ≡ ok d
      → d.allowed ≡ true
      → Promotable policy rows
  unfolding evaluate_promotion
  evaluate_promotion-Promotable policy rows d e h =
      let parts = >>=-eq-ok _ _ e in
      promotion_findings-Promotable policy rows parts.0 parts.1
        (decide-IsClean parts.0 (ap (λ (d : Decision). d.allowed) (ok-inj parts.2) ∙ h))

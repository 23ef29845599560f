-- ===== src/Gates/Sound/Candidates.antt =====
-- `evaluate_hpo_candidate` of src/ats_lab/gates.py: it never raises, and what an allowed candidate had.
use mathlib.Core.Path.{subst}
use algorithmic_trading_stra.Base.{
  ◌≤◌, Bool, true, false, not, ◌||◌, ◌&&◌, Option, none, some, List, [], ◌≡◌, refl, sym, ap, ◌∙◌,
  any, All, arith, if◌then◌else◌, select, is_some, length, inl, inr, Bool-cases,
}
use algorithmic_trading_stra.Base.Outcome.{ok, ◌>>=◌, >>=-eq-ok, ok-inj, or_raise, value_error}
use algorithmic_trading_stra.Floats.{Floats}
use algorithmic_trading_stra.Gates.Evidence.{Evidence, Policy, is_cost_sensitivity}
use algorithmic_trading_stra.Gates.Findings.{
  Findings, no_findings, IsClean, note, note-IsClean, passes, fails, lacks, Decision,
  decide-IsClean,
}
use algorithmic_trading_stra.Gates.Windows.{window_dates_are_malformed}
use algorithmic_trading_stra.Gates.Robustness.{robust_outcome}
use algorithmic_trading_stra.Gates.Quality.{is_nil, any_below_floor}
use algorithmic_trading_stra.Gates.Candidate.{
  above, baseline_gate, activity_gate, values, window_groups, is_positive_window, window_gate,
  route_groups, is_dominated, dominance_gate, candidate_findings, evaluate_hpo_candidate,
}
use algorithmic_trading_stra.Gates.Sound.Metrics.{
  TradesEnough, any_below_floor-some, any_below_floor-TradesEnough,
}

module _ (F : Floats) where
  open F use {Float, of_ℕ, lt}

  activity_gate-ok :
      (policy : Policy F) (rows : List (Evidence F)) (f : Findings)
      → (g : Findings) × (activity_gate F policy rows f ≡ ok g)
  unfolding activity_gate
  activity_gate-ok policy rows f =
      elim (Bool-cases
        (is_nil rows || any (λ (r : Evidence F). not (is_some r.trade_count)) rows)) [
          | inl e ↦ rw e (_, refl)
          | inr e ↦ elim (Bool-cases (any (window_dates_are_malformed F) rows)) [
            | inl e' ↦ rw e (rw e' (_, refl))
            | inr e' ↦ rw e (rw e' (rw (any_below_floor-some F policy rows e').1 (_, refl)))
          ]
        ]

  activity_gate-TradesEnough :
      (policy : Policy F) (rows : List (Evidence F)) (f g : Findings)
      → activity_gate F policy rows f ≡ ok g
      → IsClean g
      → IsClean f × All (TradesEnough F policy) rows
  unfolding activity_gate
  activity_gate-TradesEnough policy rows f g e h = go _ _ _ refl refl e
    where
      go :
          (b c : Bool) (low : Option Bool)
          → is_nil rows || any (λ (r : Evidence F). not (is_some r.trade_count)) rows ≡ b
          → any_below_floor F policy rows ≡ low
          → (if b
              then ok (note "hpo_activity_floor" lacks f)
              else if c
              then ok (note "window_dates_malformed" fails f)
              else (or_raise low (value_error "unparseable window dates") >>= λ low.
                  ok (note "hpo_activity_floor" (if low then fails else passes) f)))
            ≡ ok g
          → IsClean f × All (TradesEnough F policy) rows
      go true c low _ _ e =
          cc ((note-IsClean "hpo_activity_floor" lacks f (subst IsClean (sym (ok-inj e)) h)).1)
      go false true low _ _ e =
          cc ((note-IsClean "window_dates_malformed" fails f (subst IsClean (sym (ok-inj e)) h)).1)
      go false false none _ _ e = cc
      go false false (some true) _ _ e =
          cc ((note-IsClean "hpo_activity_floor" fails f (subst IsClean (sym (ok-inj e)) h)).1)
      go false false (some false) b low e = (
        (note-IsClean "hpo_activity_floor" passes f (subst IsClean (sym (ok-inj e)) h)).0,
        any_below_floor-TradesEnough F policy rows (ground arith) low,
      )

  -- What an allowed candidate for optimization had.
  pub record Optimizable (policy : Policy F) (rows : List (Evidence F)) : Type 0 where
    pub profitable :
        any
          (λ (r : Evidence F).
            above F r.net_profit_percentage (of_ℕ 0)
            && above F r.expectancy policy.minimum_expectancy)
          (select (λ (r : Evidence F). is_some r.net_profit_percentage) rows)
        ≡ true
    pub fees_known : any (λ (r : Evidence F). not (is_some r.fees)) rows ≡ false
    pub trades : All (TradesEnough F policy) rows
    pub windows : 2 ≤ length (select (is_positive_window F) (values (window_groups F rows [])))
    pub routes : 2 ≤ length (values (route_groups F rows []))
    pub spread : is_dominated F policy (values (route_groups F rows [])) ≡ false
    pub costs : robust_outcome F policy (select (is_cost_sensitivity F) rows) ≡ passes

  baseline_gate-passes :
      (policy : Policy F) (rows : List (Evidence F))
      → baseline_gate F policy rows ≡ passes
      → (any
            (λ (r : Evidence F).
              above F r.net_profit_percentage (of_ℕ 0)
              && above F r.expectancy policy.minimum_expectancy)
            (select (λ (r : Evidence F). is_some r.net_profit_percentage) rows)
          ≡ true)
        × (any (λ (r : Evidence F). not (is_some r.fees)) rows ≡ false)
  unfolding baseline_gate
  baseline_gate-passes policy rows h = (ground arith, ground arith)

  window_gate-passes :
      (rows : List (Evidence F))
      → window_gate F rows ≡ passes
      → 2 ≤ length (select (is_positive_window F) (values (window_groups F rows [])))
  unfolding window_gate
  window_gate-passes rows h = ground arith

  dominance_gate-passes :
      (policy : Policy F) (rows : List (Evidence F))
      → dominance_gate F policy rows ≡ passes
      → (2 ≤ length (values (route_groups F rows [])))
        × (is_dominated F policy (values (route_groups F rows [])) ≡ false)
  unfolding dominance_gate
  dominance_gate-passes policy rows h = (ground arith, ground arith)

  candidate_findings-Optimizable :
      (policy : Policy F) (rows : List (Evidence F)) (f : Findings)
      → candidate_findings F policy rows ≡ ok f
      → IsClean f
      → Optimizable policy rows
  unfolding candidate_findings
  candidate_findings-Optimizable policy rows f e h =
      let parts = >>=-eq-ok _ _ e in
      let cost =
        note-IsClean "fees_cost_sensitivity" _ _ (subst IsClean (sym (ok-inj parts.2)) h) in
      let dominance = note-IsClean "hpo_single_route_dominance" _ _ cost.0 in
      let windows = note-IsClean "hpo_multi_window_positivity" _ _ dominance.0 in
      let trades = activity_gate-TradesEnough policy rows _ _ parts.1 windows.0 in
      let baseline =
        note-IsClean "hpo_baseline_positive_after_fees" (baseline_gate F policy rows) no_findings
          trades.0 in
      let profit = baseline_gate-passes policy rows baseline.1 in
      let routes = dominance_gate-passes policy rows dominance.1 in
      record {
        profitable = profit.0;
        fees_known = profit.1;
        trades = trades.1;
        windows = window_gate-passes rows windows.1;
        routes = routes.0;
        spread = routes.1;
        costs = cost.1;
      }

  -- `evaluate_hpo_candidate` returns a decision for every policy and rows: it never raises.
  pub evaluate_hpo_candidate-returns :
      (policy : Policy F) (rows : List (Evidence F))
      → (d : Decision) × (evaluate_hpo_candidate F policy rows ≡ ok d)
  unfolding evaluate_hpo_candidate candidate_findings
  evaluate_hpo_candidate-returns policy rows =
      let first =
        activity_gate-ok policy rows
          (note "hpo_baseline_positive_after_fees" (baseline_gate F policy rows) no_findings) in
      rw first.1 (_, refl)

  -- An allowed HPO candidate had a row with a positive profit and an expectancy above the policy's floor;
  -- fees on every row and enough trades for each row's own window; at least two windows whose mean profit
  -- is not negative; at least two routes, none of which dominates the profit; and robust cost-stress rows.
  pub evaluate_hpo_candidate-Optimizable :
      (policy : Policy F) (rows : List (Evidence F)) (d : Decision)
      → evaluate_hpo_candidate F policy rows ≡ ok d
      → d.allowed ≡ true
      → Optimizable policy rows
  unfolding evaluate_hpo_candidate
  evaluate_hpo_candidate-Optimizable policy rows d e h =
      let parts = >>=-eq-ok _ _ e in
      candidate_findings-Optimizable policy rows parts.0 parts.1
        (decide-IsClean parts.0 (ap (λ (d : Decision). d.allowed) (ok-inj parts.2) ∙ h))

-- ===== src/Gates/Quality.antt =====
-- `evaluate_gates` of src/ats_lab/gates.py with its gates, and the verdict.
use algorithmic_trading_stra.Base.{
  ℕ, String, Bool, true, false, not, ◌&&◌, ◌||◌, Option, none, some, List, [], ◌∷◌, ◌++◌,
  if◌then◌else◌, select, any, all, is_some, length, map,
}
use algorithmic_trading_stra.Base.Int.{ℤ, pos, ltb_ℤ}
use algorithmic_trading_stra.Base.Outcome.{Result, ok, value_error, ◌>>=◌, or_raise}
use algorithmic_trading_stra.Floats.{Floats}
use algorithmic_trading_stra.Models.{Verdict, reject, inconclusive, pass, EvidenceSplit}
use algorithmic_trading_stra.Gates.Evidence.{Evidence, Policy, is_cost_sensitivity, is_split}
use algorithmic_trading_stra.Gates.Findings.{
  Findings, no_findings, Outcome, passes, fails, lacks, mark,
}
use algorithmic_trading_stra.Gates.Windows.{
  window_dates_are_malformed, required_trade_count, same_text,
}
use algorithmic_trading_stra.Gates.Robustness.{robust_outcome}

-- (symbol, timeframe, start_date, finish_date) of a route whose fields are texts, `null` or missing
pub record Route : Type 0 where
  pub symbol : Option String
  pub timeframe : Option String
  pub start_date : Option String
  pub finish_date : Option String

abbrev pub same_route : Route → Route → Bool
same_route a b =
    same_text a.symbol b.symbol
    && same_text a.timeframe b.timeframe
    && same_text a.start_date b.start_date
    && same_text a.finish_date b.finish_date

abbrev pub route_in : List Route → Route → Bool
route_in routes r = any (same_route r) routes

abbrev pub is_nil {ℓ} : {A : Type ℓ} → List A → Bool
is_nil [] = true
is_nil (_ ∷ _) = false

-- what a test over the values of a field says: no values, or a missing one, lack the evidence
abbrev pub over_values {ℓ} : {A : Type ℓ} → (A → Bool) → List (Option A) → Outcome
over_values bad values =
    if is_nil values || any (λ v. not (is_some v)) values
    then lacks
    else if any (λ v. elim v [ none ↦ false | some x ↦ bad x ]) values
    then fails
    else passes

module _ (F : Floats) where
  open F use {Float, of_ℕ, lt, le, eq, sub, mul, div, abs, sum}

  pub record GateDecision : Type 0 where
    pub verdict : Verdict
    pub findings : Findings
    pub holdout_degradation_percentage : Option Float

  abbrev route_of : Evidence F → Route
  route_of row = record {
    symbol = row.symbol;
    timeframe = row.timeframe;
    start_date = row.start_date;
    finish_date = row.finish_date;
  }

  -- "route_completion"
  unfoldable pub route_completion : List (Evidence F) → List Route → List Route → Outcome
  route_completion rows [] observed = if is_nil rows then fails else passes
  route_completion rows (e ∷ expected) observed =
      if all (route_in (map route_of rows ++ observed)) (e ∷ expected) then passes else fails

  -- `_minimum_gate`, where `strict` asks for more than the threshold
  unfoldable pub minimum_gate :
      (Evidence F → Option Float) → Float → Bool → List (Evidence F) → Outcome
  minimum_gate field threshold strict rows =
      over_values (λ v. if strict then le v threshold else lt v threshold) (map field rows)

  -- `_maximum_gate`
  unfoldable pub maximum_gate : (Evidence F → Option Float) → Float → List (Evidence F) → Outcome
  maximum_gate field threshold rows = over_values (λ v. lt threshold v) (map field rows)

  -- `int(value) < required_trade_count(row, policy)`
  abbrev pub below_floor : Option ℤ → Option ℕ → Option Bool
  below_floor none _ = some false
  below_floor (some n) none = none
  below_floor (some n) (some floor) = some (ltb_ℤ n (pos floor))

  -- one more row in front of an `any(…)`
  abbrev pub or_else : Option Bool → Option Bool → Option Bool
  or_else none rest = none
  or_else (some true) rest = some true
  or_else (some false) rest = rest

  -- `any(…)`, which stops at the first row below its floor; `none` where a floor raises
  unfoldable pub any_below_floor : Policy F → List (Evidence F) → Option Bool
  any_below_floor policy [] = some false
  any_below_floor policy (row ∷ rows) =
      or_else (below_floor row.trade_count (required_trade_count F policy row))
        (any_below_floor policy rows)

  -- `_minimum_trade_gate`, which marks another name where a window is malformed
  unfoldable pub minimum_trade_gate : Policy F → List (Evidence F) → Findings → Result Findings
  minimum_trade_gate policy rows f =
      if any (window_dates_are_malformed F) rows
      then ok (mark "window_dates_malformed" fails f)
      else if is_nil rows || any (λ (r : Evidence F). not (is_some r.trade_count)) rows
      then ok (mark "minimum_trades" lacks f)
      else (or_raise (any_below_floor policy rows) (value_error "unparseable window dates")
          >>= λ low. ok (mark "minimum_trades" (if low then fails else passes) f))

  -- the values of a field that are there
  abbrev present : List (Option Float) → List Float
  present [] = []
  present (none ∷ vs) = present vs
  present (some v ∷ vs) = v ∷ present vs

  unfoldable pub profits_of : EvidenceSplit → List (Evidence F) → List Float
  profits_of s rows =
      present (map (λ (r : Evidence F). r.net_profit_percentage) (select (is_split F s) rows))

  abbrev mean : List Float → Float
  mean vs = div (sum vs) (of_ℕ (length vs))

  -- `max(0.0, value)`
  abbrev at_least_zero : Float → Float
  at_least_zero x = if lt (of_ℕ 0) x then x else of_ℕ 0

  -- `_holdout_degradation`
  unfoldable pub holdout_degradation : List (Evidence F) → Option Float
  holdout_degradation rows =
      let train = profits_of EvidenceSplit.train rows in
      let holdout = profits_of EvidenceSplit.holdout rows in
      let train_mean = mean train in
      if is_nil train || is_nil holdout || eq train_mean (of_ℕ 0)
      then none
      else some
          (at_least_zero (mul (div (sub train_mean (mean holdout)) (abs train_mean)) (of_ℕ 100)))

  abbrev pub degraded : Policy F → Option Float → Outcome
  degraded policy none = lacks
  degraded policy (some d) =
      if lt policy.maximum_holdout_degradation_percentage d then fails else passes

  -- "train_holdout_degradation", marked only where a training or holdout row is there
  unfoldable pub degradation_gate : Policy F → List (Evidence F) → Findings → Findings
  degradation_gate policy rows f =
      if any (λ r. is_split F EvidenceSplit.train r || is_split F EvidenceSplit.holdout r) rows
      then mark "train_holdout_degradation" (degraded policy (holdout_degradation rows)) f
      else f

  unfoldable pub verdict_of : Findings → Verdict
  verdict_of f =
      if not (is_nil f.failed)
      then reject
      else if not (is_nil f.missing)
      then inconclusive
      else pass

  -- the gates after that of the trades
  unfoldable pub metric_gates : Policy F → List (Evidence F) → Findings → Findings
  metric_gates policy rows f = degradation_gate policy rows (
      mark "fees_cost_sensitivity" (robust_outcome F policy (select (is_cost_sensitivity F) rows)) (
        mark "profit_factor"
          (minimum_gate (λ r. r.profit_factor) policy.minimum_profit_factor false rows)
          (mark "sharpe" (minimum_gate (λ r. r.sharpe_ratio) policy.minimum_sharpe_ratio false rows)
            (mark "max_drawdown"
              (maximum_gate (λ r. r.max_drawdown_percentage) policy.maximum_drawdown_percentage
                rows)
              (mark "net_profit" (minimum_gate (λ r. r.net_profit_percentage) (of_ℕ 0) true rows)
                f)))))

  unfoldable pub evaluate_gates :
      Policy F → List (Evidence F) → List Route → List Route → Result GateDecision
  evaluate_gates policy rows expected observed =
      minimum_trade_gate policy rows
        (mark "route_completion" (route_completion rows expected observed) no_findings)
      >>= λ f.
          let findings = metric_gates policy rows f in
          ok (record {
            verdict = verdict_of findings;
            findings = findings;
            holdout_degradation_percentage = holdout_degradation rows;
          })

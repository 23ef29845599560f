-- ===== src/Gates/Candidate.antt =====
-- `evaluate_hpo_candidate` of src/ats_lab/gates.py: when a baseline justifies an optimization cycle.
use algorithmic_trading_stra.Base.{
  String, Bool, false, not, ◌&&◌, ◌||◌, Option, none, some, List, [], ◌∷◌, ◌++◌, if◌then◌else◌, ltb,
  select, any, is_some, length, str_eq, some_or,
}
use algorithmic_trading_stra.Base.Outcome.{Result, ok, value_error, ◌>>=◌, or_raise}
use algorithmic_trading_stra.Floats.{Floats}
use algorithmic_trading_stra.Gates.Evidence.{Evidence, Policy, filled, is_cost_sensitivity}
use algorithmic_trading_stra.Gates.Findings.{
  Findings, no_findings, Outcome, passes, fails, lacks, note, Decision, decide,
}
use algorithmic_trading_stra.Gates.Windows.{window_dates_are_malformed}
use algorithmic_trading_stra.Gates.Robustness.{robust_outcome}
use algorithmic_trading_stra.Gates.Quality.{any_below_floor, is_nil}

-- a dictionary keyed by two texts, in insertion order
abbrev pub Groups : Type 0 → Type 0
Groups V = List (String × String × V)

-- `groups[key] = update(groups.get(key))`
abbrev upsert : {V : Type 0} → String → String → (Option V → V) → Groups V → Groups V
upsert a b update [] = (a, b, update none) ∷ []
upsert a b update ((c, d, v) ∷ groups) =
    let rest = upsert a b update groups in
    if str_eq a c && str_eq b d then (c, d, update (some v)) ∷ groups else (c, d, v) ∷ rest

abbrev pub values : {V : Type 0} → Groups V → List V
values [] = []
values ((_, _, v) ∷ groups) = v ∷ values groups

abbrev appended : {A : Type 0} → A → Option (List A) → List A
appended a none = a ∷ []
appended a (some as_before) = as_before ++ a ∷ []

module _ (F : Floats) where
  open F use {Float, of_ℕ, lt, le, add, mul, div, sum}

  unfoldable pub above : Option Float → Float → Bool
  above none t = false
  above (some v) t = lt t v

  -- "hpo_baseline_positive_after_fees"
  unfoldable pub baseline_gate : Policy F → List (Evidence F) → Outcome
  unfolding above
  baseline_gate policy rows =
      let profit_rows = select (λ (r : Evidence F). is_some r.net_profit_percentage) rows in
      if is_nil profit_rows
        || any (λ (r : Evidence F). not (is_some r.fees)) rows
        || any (λ (r : Evidence F). not (is_some r.expectancy)) profit_rows
      then lacks
      else if not (
          any
            (λ (r : Evidence F).
              above r.net_profit_percentage (of_ℕ 0)
              && above r.expectancy policy.minimum_expectancy)
            profit_rows)
      then fails
      else passes

  unfoldable pub activity_gate : Policy F → List (Evidence F) → Findings → Result Findings
  activity_gate policy rows f =
      if is_nil rows || any (λ (r : Evidence F). not (is_some r.trade_count)) rows
      then ok (note "hpo_activity_floor" lacks f)
      else if any (window_dates_are_malformed F) rows
      then ok (note "window_dates_malformed" fails f)
      else (or_raise (any_below_floor F policy rows) (value_error "unparseable window dates")
          >>= λ low. ok (note "hpo_activity_floor" (if low then fails else passes) f))

  add_window : Evidence F → Groups (List Float) → Groups (List Float)
  add_window row groups = elim row.net_profit_percentage [
    | none ↦ groups
    | some p ↦
        if filled F row.start_date && filled F row.finish_date
        then upsert (some_or row.start_date "") (some_or row.finish_date "") (appended p) groups
        else groups
  ]

  -- the profits of each window
  unfoldable pub window_groups : List (Evidence F) → Groups (List Float) → Groups (List Float)
  unfolding add_window
  window_groups [] groups = groups
  window_groups (row ∷ rows) groups = window_groups rows (add_window row groups)

  -- `sum(values) / len(values) >= 0`
  unfoldable pub is_positive_window : List Float → Bool
  is_positive_window vs = le (of_ℕ 0) (div (sum vs) (of_ℕ (length vs)))

  -- "hpo_multi_window_positivity"
  unfoldable pub window_gate : List (Evidence F) → Outcome
  unfolding window_groups is_positive_window
  window_gate rows =
      let groups = values (window_groups rows []) in
      if ltb (length groups) 2
      then lacks
      else if ltb (length (select is_positive_window groups)) 2
      then fails
      else passes

  added : Float → Option Float → Float
  added p none = add (of_ℕ 0) p
  added p (some v) = add v p

  -- the summed profit of each (symbol, timeframe)
  unfoldable pub route_groups : List (Evidence F) → Groups Float → Groups Float
  unfolding added
  route_groups [] groups = groups
  route_groups (row ∷ rows) groups = route_groups rows (elim row.net_profit_percentage [
    | none ↦ groups
    | some p ↦ upsert (some_or row.symbol "") (some_or row.timeframe "") (added p) groups
  ])

  -- the builtin `max` of a list that is not empty
  max_from : Float → List Float → Float
  max_from best [] = best
  max_from best (v ∷ vs) = max_from (if lt best v then v else best) vs

  unfoldable pub is_dominated : Policy F → List Float → Bool
  unfolding max_from
  is_dominated policy [] = false
  is_dominated policy (v ∷ vs) =
      let total = sum (select (lt (of_ℕ 0)) (v ∷ vs)) in
      lt (of_ℕ 0) total
      && lt policy.hpo_route_dominance_percentage (mul (div (max_from v vs) total) (of_ℕ 100))

  -- "hpo_single_route_dominance"
  unfoldable pub dominance_gate : Policy F → List (Evidence F) → Outcome
  unfolding route_groups is_dominated
  dominance_gate policy rows =
      let groups = values (route_groups rows []) in
      if ltb (length groups) 2 then lacks else if is_dominated policy groups then fails else passes

  unfoldable pub candidate_findings : Policy F → List (Evidence F) → Result Findings
  candidate_findings policy rows =
      activity_gate policy rows
        (note "hpo_baseline_positive_after_fees" (baseline_gate policy rows) no_findings)
      >>= λ f. ok (
          note "fees_cost_sensitivity"
            (robust_outcome F policy (select (is_cost_sensitivity F) rows))
            (note "hpo_single_route_dominance" (dominance_gate policy rows)
              (note "hpo_multi_window_positivity" (window_gate rows) f)))

  unfoldable pub evaluate_hpo_candidate : Policy F → List (Evidence F) → Result Decision
  unfolding candidate_findings
  evaluate_hpo_candidate policy rows = candidate_findings policy rows >>= λ f. ok (decide f)

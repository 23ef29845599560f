-- ===== src/EvaluationWindows/Contiguous.antt =====
-- What the plan of src/ats_lab/evaluation_windows.py says of its windows.
use algorithmic_trading_stra.Base.{
  ℕ, suc, ◌-◌, ◌≤◌, ◌<◌, ltb, Bool, true, false, ◌≡◌, arith, refl, sym, str_eq, if◌then◌else◌,
}
use algorithmic_trading_stra.Base.Int.{ℤ, pos, negsuc, ltb_ℤ}
use algorithmic_trading_stra.Base.Outcome.{ok, err, >>=-eq-ok, raise_if-passed, ok-inj}
use algorithmic_trading_stra.EvaluationWindows.{
  EvaluationWindowPolicy, EvaluationWindowPlan, Anchor, check_date, coerced, anchor_or,
  out_of_range, checked_windows, minus_days, resolve_evaluation_windows,
}

-- the days from a start to a finish, both counted
abbrev pub days : ℕ → ℕ → ℕ
days start finish = suc finish - start

-- the three windows stand one behind the other, with no day between; with their first and last days
-- counted, the last is a day longer than its lookback
pub record Contiguous (policy : EvaluationWindowPolicy) (plan : EvaluationWindowPlan) : Type 0 where
  pub after_hpo : suc plan.hpo_finish ≡ plan.rolling_start
  pub after_rolling : suc plan.rolling_finish ≡ plan.oos_start
  pub ends : plan.oos_finish ≡ plan.anchor_date
  pub hpo_days : pos (days plan.hpo_start plan.hpo_finish) ≡ policy.comparison_lookback_days
  pub rolling_days :
      pos (days plan.rolling_start plan.rolling_finish) ≡ policy.rolling_lookback_days
  pub oos_days :
      (lookback : ℕ) × (policy.oos_lookback_days ≡ pos lookback)
      × (days plan.oos_start plan.oos_finish ≡ suc lookback)
  pub hpo_order : plan.hpo_start ≤ plan.hpo_finish
  pub rolling_order : plan.rolling_start ≤ plan.rolling_finish
  pub oos_order : plan.oos_start < plan.oos_finish
  pub first_day : 1 ≤ plan.hpo_start

abbrev plan_of : ℕ → ℕ → ℕ → ℕ → ℕ → ℕ → EvaluationWindowPlan
plan_of day hpo hpo_end rolling rolling_end oos = record {
  anchor_date = day;
  hpo_start = hpo;
  hpo_finish = hpo_end;
  rolling_start = rolling;
  rolling_finish = rolling_end;
  oos_start = oos;
  oos_finish = day;
}

-- a positive number of days before a day
minus_days-pos :
    (day : ℕ) (days : ℤ) (d : ℕ)
    → ltb_ℤ days (pos 1) ≡ false
    → minus_days day days ≡ ok d
    → (pos (day - d) ≡ days) × (d < day) × (1 ≤ d)
unfolding minus_days
minus_days-pos day (pos n) d h e = go (ltb n day) refl e
  where
    go :
        (b : Bool)
        → ltb n day ≡ b
        → (if b then ok (day - n) else err out_of_range) ≡ ok d
        → (pos (day - d) ≡ pos n) × (d < day) × (1 ≤ d)
    go true l k = let same : day - n ≡ d = cc in ground (arith, same, l, h)
    go false l k = cc
minus_days-pos day (negsuc n) d h e = ground (arith, h)

-- a policy that passed its checks has positive lookbacks
checked-positive :
    (policy : EvaluationWindowPolicy)
    → checked_windows policy ≡ ok policy
    → (ltb_ℤ policy.comparison_lookback_days (pos 1) ≡ false)
      × (ltb_ℤ policy.oos_lookback_days (pos 1) ≡ false)
      × (ltb_ℤ policy.rolling_lookback_days (pos 1) ≡ false)
unfolding checked_windows
checked-positive policy h =
    let (_, h₁) = raise_if-passed _ _ _ h in
    let (_, _, h₂) = >>=-eq-ok (check_date policy.as_of_date) _ h₁ in
    let (c, h₃) = raise_if-passed (ltb_ℤ policy.comparison_lookback_days (pos 1)) _ _ h₂ in
    let (o, h₄) = raise_if-passed (ltb_ℤ policy.oos_lookback_days (pos 1)) _ _ h₃ in
    let (r, h₅) = raise_if-passed (ltb_ℤ policy.rolling_lookback_days (pos 1)) _ _ h₄ in (c, o, r)

-- The windows of a checked policy, where they resolve, stand one behind the other without a gap or a
-- shared day and end at the anchor. With the first and the last day of each counted, the HPO and the
-- rolling window have exactly the configured numbers of days, and the out-of-sample window has one more.
pub resolve_evaluation_windows-Contiguous :
    (policy : EvaluationWindowPolicy) (anchor : Anchor) (plan : EvaluationWindowPlan)
    → checked_windows policy ≡ ok policy
    → resolve_evaluation_windows policy anchor ≡ ok plan
    → Contiguous policy plan
unfolding resolve_evaluation_windows
resolve_evaluation_windows-Contiguous policy anchor plan v e =
    let (c, o, r) = checked-positive policy v in
    let (_, e₀) = raise_if-passed (str_eq policy.mode "explicit") _ _ e in
    let (day, _, e₁) = >>=-eq-ok (coerced (anchor_or anchor policy.as_of_date)) _ e₀ in
    let (oos, d₁, e₂) = >>=-eq-ok (minus_days day policy.oos_lookback_days) _ e₁ in
    let (rolling, d₂, e₃) = >>=-eq-ok (minus_days oos policy.rolling_lookback_days) _ e₂ in
    let (hpo, d₃, e₄) = >>=-eq-ok (minus_days rolling policy.comparison_lookback_days) _ e₃ in
    let (hpo_end, d₄, e₅) = >>=-eq-ok (minus_days rolling (pos 1)) _ e₄ in
    let (rolling_end, d₅, e₆) = >>=-eq-ok (minus_days oos (pos 1)) _ e₅ in
    let p₁ = minus_days-pos day policy.oos_lookback_days oos o d₁ in
    let p₂ = minus_days-pos oos policy.rolling_lookback_days rolling r d₂ in
    let p₃ = minus_days-pos rolling policy.comparison_lookback_days hpo c d₃ in
    let p₄ = minus_days-pos rolling (pos 1) hpo_end refl d₄ in
    let p₅ = minus_days-pos oos (pos 1) rolling_end refl d₅ in
    let same : plan_of day hpo hpo_end rolling rolling_end oos ≡ plan = ok-inj e₆ in
    rw (sym same) (record {
      after_hpo = grind (arith, p₄);
      after_rolling = grind (arith, p₅);
      ends = refl;
      hpo_days = let next : suc hpo_end ≡ rolling = grind (arith, p₄) in rw next p₃.0;
      rolling_days = let next : suc rolling_end ≡ oos = grind (arith, p₅) in rw next p₂.0;
      oos_days = (day - oos, sym p₁.0, omega (arith, p₁.1));
      hpo_order = grind (arith, p₄, p₃);
      rolling_order = grind (arith, p₅, p₂);
      oos_order = p₁.1;
      first_day = p₃.2;
    })

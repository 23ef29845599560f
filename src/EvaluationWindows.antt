-- ===== src/EvaluationWindows.antt =====
-- The evaluation windows of src/ats_lab/evaluation_windows.py and the policy of src/ats_lab/resources.py that
-- they follow. A date is its ordinal, with `date.fromisoformat` of Dates.
pub mod Contiguous
pub mod Samples
use algorithmic_trading_stra.Base.{
  ℕ, suc, ◌+◌, ◌-◌, leb, ltb, String, Bool, not, ◌||◌, Option, none, some, List, [], ◌∷◌, str_eq,
  is_some, some_or, if◌then◌else◌,
}
use algorithmic_trading_stra.Base.Int.{ℤ, pos, negsuc, ltb_ℤ}
use algorithmic_trading_stra.Base.Texts.{◌<>◌}
use algorithmic_trading_stra.Base.Outcome.{
  Result, Error, ok, err, value_error, runtime_error, ◌>>=◌, ◌>>◌, raise_if, or_raise,
}
use algorithmic_trading_stra.Dates.{from_iso, max_ordinal}

pub record EvaluationWindowPolicy : Type 0 where
  pub mode : String
  pub as_of_date : Option String
  pub comparison_lookback_days : ℤ
  pub oos_lookback_days : ℤ
  pub rolling_lookback_days : ℤ

abbrev pub check_date : Option String → Result (Unit {0})
check_date none = ok tt
check_date (some s) =
    raise_if (not (is_some (from_iso s)))
      (value_error "resources.evaluation_windows.as_of_date must be ISO date")

abbrev check_days : String → ℤ → Result (Unit {0})
check_days name days =
    raise_if (ltb_ℤ days (pos 1))
      (value_error ("resources.evaluation_windows." <> name <> " must be positive"))

-- `__post_init__`
unfoldable pub checked_windows : EvaluationWindowPolicy → Result EvaluationWindowPolicy
checked_windows policy = do
  raise_if (not (str_eq policy.mode "relative" || str_eq policy.mode "explicit"))
      (value_error "resources.evaluation_windows.mode must be relative or explicit")
  check_date policy.as_of_date
  check_days "comparison_lookback_days" policy.comparison_lookback_days
  check_days "oos_lookback_days" policy.oos_lookback_days
  check_days "rolling_lookback_days" policy.rolling_lookback_days
  ok policy

pub record EvaluationWindowPlan : Type 0 where
  pub anchor_date : ℕ
  pub hpo_start : ℕ
  pub hpo_finish : ℕ
  pub rolling_start : ℕ
  pub rolling_finish : ℕ
  pub oos_start : ℕ
  pub oos_finish : ℕ

abbrev pub out_of_range : Error
out_of_range = runtime_error "OverflowError: date value out of range"

-- `day - timedelta(days=days)`
unfoldable pub minus_days : ℕ → ℤ → Result ℕ
minus_days day (pos n) = if ltb n day then ok (day - n) else err out_of_range
minus_days day (negsuc n) =
    if leb (day + suc n) max_ordinal then ok (day + suc n) else err out_of_range

-- the argument `anchor_date`
pub data Anchor : Type 0 where
  no_date : Anchor
  date : ℕ → Anchor
  text : String → Anchor

abbrev configured_anchor : Option String → Anchor
configured_anchor none = no_date
configured_anchor (some s) = text s

-- `anchor_date or configured.as_of_date`
abbrev pub anchor_or : Anchor → Option String → Anchor
anchor_or no_date configured = configured_anchor configured
anchor_or (date d) configured = date d
anchor_or (text s) configured = if str_eq s "" then configured_anchor configured else text s

-- `_coerce_date`, with the ValueError of a missing anchor
abbrev pub coerced : Anchor → Result ℕ
coerced no_date = err (
    value_error (
      "evaluation windows require an explicit anchor date: set "
      <> "resources.evaluation_windows.as_of_date or pass anchor_date"))
coerced (date d) = ok d
coerced (text s) = or_raise (from_iso s) (value_error "Invalid isoformat string")

unfoldable pub resolve_evaluation_windows :
    EvaluationWindowPolicy → Anchor → Result EvaluationWindowPlan
resolve_evaluation_windows policy anchor_date = do
  raise_if (str_eq policy.mode "explicit")
      (value_error "relative evaluation windows disabled; provide explicit route dates")
  anchor ← coerced (anchor_or anchor_date policy.as_of_date)
  oos_start ← minus_days anchor policy.oos_lookback_days
  rolling_start ← minus_days oos_start policy.rolling_lookback_days
  hpo_start ← minus_days rolling_start policy.comparison_lookback_days
  hpo_finish ← minus_days rolling_start (pos 1)
  rolling_finish ← minus_days oos_start (pos 1)
  ok (record {
    anchor_date = anchor;
    hpo_start = hpo_start;
    hpo_finish = hpo_finish;
    rolling_start = rolling_start;
    rolling_finish = rolling_finish;
    oos_start = oos_start;
    oos_finish = anchor;
  })

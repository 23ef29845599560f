-- ===== src/Gates/Windows.antt =====
-- Windows of evidence: `_overlaps_training`, `required_trade_count`, `_window_dates_are_malformed` and the trade
-- gate of src/ats_lab/gates.py. Windows are half-open, [start, finish).
use algorithmic_trading_stra.Base.{
  ℕ, ◌+◌, ◌-◌, ◌*◌, ◌/◌, max, String, Bool, true, false, ◌&&◌, ◌||◌, Option, none, some, List,
  str_eq, if◌then◌else◌, ltb, any,
}
use algorithmic_trading_stra.Dates.{from_iso}
use algorithmic_trading_stra.Floats.{Floats}
use algorithmic_trading_stra.Gates.Evidence.{Evidence, Policy}

-- equality of two optional texts
abbrev pub same_text : Option String → Option String → Bool
same_text none none = true
same_text (some s) (some t) = str_eq s t
same_text _ _ = false

-- What the two dates of a row are: absent or empty, not ISO dates, or the days they name.
pub data Window : Type 0 where
  undated : Window
  malformed : Window
  dates : ℕ → ℕ → Window

abbrev parsed : Option ℕ → Option ℕ → Window
parsed (some s) (some f) = dates s f
parsed _ _ = malformed

abbrev window_of : Option String → Option String → Window
window_of (some s) (some f) =
    if str_eq s "" || str_eq f "" then undated else parsed (from_iso s) (from_iso f)
window_of _ _ = undated

abbrev pub is_malformed : Window → Bool
is_malformed malformed = true
is_malformed _ = false

-- `minimum_trades_per_year * days / 365.25`, rounded up: the exact quotient, since 365.25 is 1461 / 4
abbrev pub annualized : ℕ → ℕ → ℕ
annualized per_year days = (4 * per_year * days + 1460) / 1461

module _ (F : Floats) where
  unfoldable pub window : Evidence F → Window
  window row = window_of row.start_date row.finish_date

  unfoldable pub window_dates_are_malformed : Evidence F → Bool
  unfolding window
  window_dates_are_malformed row = is_malformed (window row)

  -- `none` where it raises ValueError
  abbrev pub floor_for : Policy F → Window → Option ℕ
  floor_for policy undated = some policy.minimum_trades
  floor_for policy malformed = none
  floor_for policy (dates s f) =
      some
        (max policy.minimum_trade_floor (annualized policy.minimum_trades_per_year (max 1 (f - s))))

  unfoldable pub required_trade_count : Policy F → Evidence F → Option ℕ
  unfolding window
  required_trade_count policy row = floor_for policy (window row)

  abbrev pub meets : Window → Window → Bool
  meets (dates s f) (dates s' f') = ltb s f' && ltb s' f
  meets _ _ = false

  unfoldable pub overlaps : Evidence F → Evidence F → Bool
  unfolding window
  overlaps row other =
      same_text row.symbol other.symbol
      && same_text row.timeframe other.timeframe
      && meets (window row) (window other)

  unfoldable pub overlaps_training : Evidence F → List (Evidence F) → Bool
  unfolding overlaps
  overlaps_training row = any (overlaps row)

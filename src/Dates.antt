-- ===== src/Dates.antt =====
-- The library's `datetime.date` as the program uses it: a date is its proleptic Gregorian ordinal
-- (day 1 is 0001-01-01), and `from_iso` is `date.fromisoformat`, which reads the extended and the basic
-- calendar and week forms.
use Prim.Native.Char.{code}
use algorithmic_trading_stra.Base.{
  ℕ, zero, suc, ◌+◌, ◌-◌, ◌*◌, ◌/◌, ◌%◌, String, Bool, not, ◌&&◌, ◌||◌, Option, none, some, List,
  [], ◌∷◌, ltb, leb, ◌==◌, if◌then◌else◌, ◌≡◌, refl,
}

pub codes : String → List ℕ
codes String.[] = []
codes (String.◌∷◌ c s) = code c ∷ codes s

-- `date.max.toordinal()`
abbrev pub max_ordinal : ℕ
max_ordinal = 3652059

is_leap : ℕ → Bool
is_leap y = (y % 4 == 0) && (not (y % 100 == 0) || (y % 400 == 0))

days_before_year : ℕ → ℕ
days_before_year y = let p = y - 1 in p * 365 + p / 4 - p / 100 + p / 400

days_in_month : ℕ → ℕ → ℕ
unfolding is_leap
days_in_month y m =
    if m == 2
    then (if is_leap y then 29 else 28)
    else if (m == 4) || (m == 6) || (m == 9) || (m == 11)
    then 30
    else 31

days_before_month : ℕ → ℕ → ℕ
unfolding days_in_month
days_before_month y zero = 0
days_before_month y (suc zero) = 0
days_before_month y (suc (suc m)) = days_before_month y (suc m) + days_in_month y (suc m)

in_range : ℕ → ℕ → ℕ → Bool
in_range lo hi n = leb lo n && leb n hi

-- `date(year, month, day)`
pub of_calendar : ℕ → ℕ → ℕ → Option ℕ
unfolding days_before_year days_before_month days_in_month in_range
of_calendar y m d =
    if in_range 1 9999 y && in_range 1 12 m && in_range 1 (days_in_month y m) d
    then some (days_before_year y + days_before_month y m + d)
    else none

-- `date.fromisocalendar(year, week, day)`
pub of_week : ℕ → ℕ → ℕ → Option ℕ
unfolding days_before_year is_leap in_range
of_week y w d =
    let first = days_before_year y + 1 in
    let weekday = (first + 6) % 7 in
    let monday = if ltb 3 weekday then first + 7 - weekday else first - weekday in
    let long = (weekday == 3) || ((weekday == 2) && is_leap y) in
    let n = monday + (w - 1) * 7 + (d - 1) in
    if in_range 1 9999 y
      && (in_range 1 52 w || ((w == 53) && long))
      && in_range 1 7 d
      && in_range 1 max_ordinal n
    then some n
    else none

is_digit : ℕ → Bool
is_digit c = leb 48 c && leb c 57

two : ℕ → ℕ → Option ℕ
unfolding is_digit
two a b = if is_digit a && is_digit b then some ((a - 48) * 10 + (b - 48)) else none

bind_two : ℕ → ℕ → (ℕ → Option ℕ) → Option ℕ
unfolding two
bind_two a b k = elim (two a b) [ none ↦ none | some n ↦ k n ]

-- what follows the year, without separators
basic : ℕ → List ℕ → Option ℕ
unfolding bind_two of_calendar of_week is_digit
basic y (w ∷ a ∷ b ∷ []) = if w == b'W' then bind_two a b (λ n. of_week y n 1) else none
basic y (a ∷ b ∷ c ∷ d ∷ []) =
    if a == b'W'
    then (if is_digit d then bind_two b c (λ n. of_week y n (d - 48)) else none)
    else bind_two a b (λ m. bind_two c d (λ n. of_calendar y m n))
basic y _ = none

-- what follows the year and a dash
extended : ℕ → List ℕ → Option ℕ
unfolding bind_two of_calendar of_week is_digit
extended y (w ∷ a ∷ b ∷ []) = if w == b'W' then bind_two a b (λ n. of_week y n 1) else none
extended y (a ∷ b ∷ c ∷ d ∷ e ∷ []) =
    if a == b'W'
    then (if (d == b'-') && is_digit e then bind_two b c (λ n. of_week y n (e - 48)) else none)
    else if c == b'-'
    then bind_two a b (λ m. bind_two d e (λ n. of_calendar y m n))
    else none
extended y _ = none

after_year : ℕ → List ℕ → Option ℕ
unfolding basic extended
after_year y [] = none
after_year y (c ∷ rest) = if c == b'-' then extended y rest else basic y (c ∷ rest)

from_codes : List ℕ → Option ℕ
unfolding bind_two after_year
from_codes (a ∷ b ∷ c ∷ d ∷ rest) =
    bind_two a b (λ h. bind_two c d (λ l. after_year (h * 100 + l) rest))
from_codes _ = none

-- `date.fromisoformat(text)`; `none` stands for its ValueError
unfoldable pub from_iso : String → Option ℕ
unfolding from_codes codes
from_iso s = from_codes (codes s)

from_iso_calendar : from_iso "2024-02-29" ≡ some 738945
unfolding from_iso
from_iso_calendar = refl

from_iso_week : from_iso "2024-W09-4" ≡ some 738945
unfolding from_iso
from_iso_week = refl

from_iso_basic : from_iso "20240229" ≡ some 738945
unfolding from_iso
from_iso_basic = refl

from_iso_refused : from_iso "2023-02-29" ≡ none
unfolding from_iso
from_iso_refused = refl

-- ===== src/Assets/Plan.antt =====
-- The straight-line plan of one schedule: `add_months` and the amounts of `calculate_year` in
-- backend/app/services/assets.py.
--
-- Dates of a plan are ordinals. The `Decimal` quotient has 28 digits, and `total` is a number of days:
-- a quotient that is not half a cent is far enough from it, so the rounding is that of the exact
-- quotient.
pub mod Amounts
use solo_lmnp.Prelude.Text.{Text}
use solo_lmnp.Prelude.{ℕ, ◌+◌, ◌-◌, ◌*◌, ◌/◌, ◌%◌, Option, none, some, ltb, leb, if◌then◌else◌}

abbrev pub max : ℕ → ℕ → ℕ
max a b = if leb a b then b else a

abbrev pub min : ℕ → ℕ → ℕ
min a b = if leb a b then a else b

pub record Date : Type 0 where
  pub year : ℕ
  pub month : ℕ
  pub day : ℕ

-- `date(y, m, d).toordinal()` and `calendar.monthrange(y, m)[1]`.
pub record Calendar : Type 0 where
  pub month_length : ℕ → ℕ → ℕ
  pub ordinal : Date → ℕ

-- The month counts from 1.
unfoldable pub add_months : Calendar → Date → ℕ → Date
add_months calendar value months =
    let index = value.month - 1 + months in
    let year = value.year + index / 12 in
    let month = index % 12 + 1 in
    record { year = year; month = month; day = min value.day (calendar.month_length year month) }

pub record Schedule : Type 0 where
  pub id : ℕ
  pub asset_id : Option ℕ
  pub component_id : Option ℕ
  pub base : ℕ
  pub useful_life_months : ℕ
  pub service_start : ℕ
  pub end_date : ℕ
  pub asset_account : Text
  pub depreciation_account : Text

pub data PeriodStatus : Type 0 where
  calculated : PeriodStatus
  posted : ℕ → PeriodStatus

pub record Period : Type 0 where
  pub id : ℕ
  pub schedule_id : ℕ
  pub fiscal_year_id : ℕ
  pub period_start : ℕ
  pub period_end : ℕ
  pub days : ℕ
  pub amount : ℕ
  pub accumulated : ℕ
  pub net_book_value : ℕ
  pub status : PeriodStatus

-- The cents of `base * days / total`, a half rounded up.
unfoldable pub share : ℕ → ℕ → ℕ → ℕ
share base days total = (2 * (base * days) + total) / (2 * total)

-- `end = min(end, asset.disposed_at)`, if it was disposed of.
abbrev pub cut : Option ℕ → ℕ → ℕ
cut none day = day
cut (some disposed_at) day = min day disposed_at

-- The first and the last day of the year that the plan takes.
abbrev pub first_day : Schedule → ℕ → ℕ
first_day s year_start = max year_start s.service_start

abbrev pub last_day : Schedule → Option ℕ → ℕ → ℕ
last_day s disposed_at year_end = cut disposed_at (min year_end s.end_date)

abbrev pub total_days : Schedule → ℕ
total_days s = s.end_date - s.service_start + 1

-- The period of a year whose first and last days are in order.
unfoldable pub period_of : Schedule → ℕ → ℕ → ℕ → ℕ → Period
unfolding share
period_of s period_id year_id first last =
    let before_days = first - s.service_start in
    let end_days = min (total_days s) (last - s.service_start + 1) in
    let cumulative_before = share s.base before_days (total_days s) in
    let accumulated = share s.base end_days (total_days s) in
    record {
      id = period_id;
      schedule_id = s.id;
      fiscal_year_id = year_id;
      period_start = first;
      period_end = last;
      days = last - first + 1;
      amount = accumulated - cumulative_before;
      accumulated = accumulated;
      net_book_value = s.base - accumulated;
      status = calculated;
    }

-- The body of the loop over the schedules, for a year that has no period of the schedule yet: `none`
-- is `continue`.
unfoldable pub plan_period : Schedule → Option ℕ → ℕ → ℕ → ℕ → ℕ → Option Period
unfolding period_of
plan_period s disposed_at period_id year_id year_start year_end =
    if leb (first_day s year_start) (last_day s disposed_at year_end)
    then some
        (period_of s period_id year_id (first_day s year_start) (last_day s disposed_at year_end))
    else none

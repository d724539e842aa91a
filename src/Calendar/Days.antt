-- ===== src/Calendar/Days.antt =====
-- That the fields of a day are kept right: one day after another, through months, years and leap
-- years, as the number of the day says.
use release_radar.Prelude.{ℕ, zero, suc, ◌+◌, ◌-◌, ◌≤◌, ◌<◌, ◌≡◌, arith, if◌then◌else◌}
use release_radar.Calendar.{
  Day, is_leap, month_length, before_month, before_year, number, next, previous, days_after,
  days_before, IsDay,
}

before_month-suc :
    (y m : ℕ) → 1 ≤ m → m ≤ 12 → before_month y (m + 1) ≡ before_month y m + month_length y m
unfolding before_month month_length
before_month-suc y m h k = ground arith

pub before_year-suc :
    (y : ℕ) → before_year (y + 1) ≡ before_year y + (if is_leap y then 366 else 365)
unfolding before_year
before_year-suc y = ground arith

-- The length of the last month of a year, the days before it, and the first month.
december :
    (y : ℕ)
    → (before_month y 12 ≡ (if is_leap y then 335 else 334))
      × (month_length y 12 ≡ 31)
      × (before_month y 1 ≡ 0)
unfolding before_month month_length
december y = ground arith

pub next-IsDay : (d : Day) → IsDay d → IsDay (next d)
unfolding next month_length
next-IsDay d h = ground arith

pub previous-IsDay : (d : Day) → IsDay d → IsDay (previous d)
unfolding previous month_length
previous-IsDay d h = ground arith

pub number-next : (d : Day) → IsDay d → number (next d) ≡ number d + 1
unfolding number next
number-next d h = ground (
  arith,
  before_month-suc d.year d.month,
  before_year-suc d.year,
  december d.year,
  december (d.year + 1),
)

pub number-previous : (d : Day) → IsDay d → 1 ≤ d.year → number (previous d) + 1 ≡ number d
unfolding number previous
number-previous d h k = ground (
  arith,
  before_month-suc d.year (d.month - 1),
  before_year-suc (d.year - 1),
  december d.year,
  december (d.year - 1),
)

pub days_after-IsDay : (n : ℕ) (d : Day) → IsDay d → IsDay (days_after n d)
unfolding days_after
days_after-IsDay zero d h = h
days_after-IsDay (suc n) d h = next-IsDay (days_after n d) (days_after-IsDay n d h)

-- n days later is a number of days that is higher by n: through months, years and leap years.
pub number-days_after : (n : ℕ) (d : Day) → IsDay d → number (days_after n d) ≡ number d + n
unfolding days_after
number-days_after zero d h = omega arith
number-days_after (suc n) d h =
    omega (arith, number-next (days_after n d) (days_after-IsDay n d h), number-days_after n d h)

year-next : (d : Day) → d.year ≤ (next d).year
unfolding next
year-next d = ground arith

pub year-days_after : (n : ℕ) (d : Day) → d.year ≤ (days_after n d).year
unfolding days_after
year-days_after zero d = omega arith
year-days_after (suc n) d = omega (arith, year-days_after n d, year-next (days_after n d))

previous-year : (d : Day) → d.year ≤ (previous d).year + 1
unfolding previous
previous-year d = ground arith

pub days_before-IsDay : (n : ℕ) (d : Day) → IsDay d → IsDay (days_before n d)
unfolding days_before
days_before-IsDay zero d h = h
days_before-IsDay (suc n) d h = previous-IsDay (days_before n d) (days_before-IsDay n d h)

year-days_before : (n : ℕ) (d : Day) → d.year ≤ (days_before n d).year + n
unfolding days_before
year-days_before zero d = omega arith
year-days_before (suc n) d = omega (arith, year-days_before n d, previous-year (days_before n d))

-- n days earlier is a number of days that is lower by n, for n below the year.
pub number-days_before :
    (n : ℕ) (d : Day) → IsDay d → n < d.year → number (days_before n d) + n ≡ number d
unfolding days_before
number-days_before zero d h k = omega arith
number-days_before (suc n) d h k = omega (
  arith,
  number-previous (days_before n d) (days_before-IsDay n d h),
  number-days_before n d h,
  year-days_before n d,
)

-- ===== src/Calendar.antt =====
-- The local calendar fields of JavaScript's `Date`, as far as the client computes with whole days:
-- `getFullYear`, `getMonth`, `getDate`, `getDay` and `setDate`. The month counts from 1 here.
pub mod Days
use release_radar.Prelude.{
  ℕ, zero, suc, ◌+◌, ◌-◌, ◌*◌, ◌/◌, ◌%◌, ◌≤◌, ◌≡◌, Bool, true, false, not, ◌&&◌, ◌||◌, ltb, ◌==◌,
  if◌then◌else◌,
}

pub record Day : Type 0 where
  pub year : ℕ
  pub month : ℕ
  pub date : ℕ

abbrev pub day : ℕ → ℕ → ℕ → Day
day y m d = record { year = y; month = m; date = d }

-- `new Date(year, month - 1, date)`, with a month and a date that there are: a year below 100 is one of
-- the twentieth century.
abbrev pub full_year : ℕ → ℕ
full_year y = if ltb y 100 then 1900 + y else y

unfoldable pub new_date : ℕ → ℕ → ℕ → Day
new_date y m d = day (full_year y) m d

abbrev pub is_leap : ℕ → Bool
is_leap y = y % 4 == 0 && (not (y % 100 == 0) || y % 400 == 0)

unfoldable pub month_length : ℕ → ℕ → ℕ
month_length y m =
    if m == 2
    then (if is_leap y then 29 else 28)
    else if m == 4 || m == 6 || m == 9 || m == 11
    then 30
    else 31

-- The day after.
unfoldable pub next : Day → Day
next d =
    if ltb d.date (month_length d.year d.month)
    then record d { date = d.date + 1 }
    else if ltb d.month 12
    then day d.year (d.month + 1) 1
    else day (d.year + 1) 1 1

-- The day before.
unfoldable pub previous : Day → Day
previous d =
    if ltb 1 d.date
    then record d { date = d.date - 1 }
    else if ltb 1 d.month
    then day d.year (d.month - 1) (month_length d.year (d.month - 1))
    else day (d.year - 1) 12 31

-- `setDate(getDate() + n)` and `setDate(getDate() - n)`.
unfoldable pub days_after : ℕ → Day → Day
unfolding next
days_after zero d = d
days_after (suc n) d = next (days_after n d)

unfoldable pub days_before : ℕ → Day → Day
unfolding previous
days_before zero d = d
days_before (suc n) d = previous (days_before n d)

-- The days before a year and before a month of it.
unfoldable pub before_year : ℕ → ℕ
before_year y = 365 * y + (y + 3) / 4 - (y + 99) / 100 + (y + 399) / 400

unfoldable pub before_month : ℕ → ℕ → ℕ
before_month y m =
    if ltb m 3 then 31 * (m - 1) else (153 * m - 457) / 5 + (if is_leap y then 60 else 59)

-- The number of a day, and its day of the week, counted from Sunday.
unfoldable pub number : Day → ℕ
number d = before_year d.year + before_month d.year d.month + d.date

unfoldable pub weekday : Day → ℕ
unfolding number
weekday d = (number d + 5) % 7

pub record IsDay (d : Day) : Type 0 where
  pub first_month : 1 ≤ d.month
  pub last_month : d.month ≤ 12
  pub first : 1 ≤ d.date
  pub last : d.date ≤ month_length d.year d.month

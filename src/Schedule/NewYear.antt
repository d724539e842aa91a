-- ===== src/Schedule/NewYear.antt =====
-- schedule-rules.ts: the holidays are those of the day's own year, so the eve of the first day of
-- the next year is not seen.
use release_radar.Prelude.{
  ℕ, ◌+◌, ◌≤◌, ◌≡◌, ◌≢◌, ◌∙◌, refl, ap, append-nil, [], ◌∷◌, ◌==◌, arith, if◌then◌else◌,
}
use release_radar.Calendar.{
  Day, day, IsDay, month_length, next, days_after, days_before, number, before_year, before_month,
  weekday,
}
use release_radar.Calendar.Days.{number-days_after, number-days_before, before_year-suc}
use release_radar.Schedule.{easter_sunday, friday_text, schedule_warnings}
use release_radar.Schedule.Easter.{easter_sunday_bounds, easter_sunday-year, full_year_lem}
use release_radar.Schedule.Warnings.{
  IsNoneOf, IsWorkday, feasts, holiday_days-feasts, easter-IsDay, lookup-bern_holidays,
}

-- The first days of the months in which Easter falls, and of December.
spring : (y : ℕ) → (before_month y 3 ≤ 60) × (before_month y 4 ≤ 91) × (334 ≤ before_month y 12)
unfolding before_month
spring y = ground arith

year-easter_sunday : (y : ℕ) → 100 ≤ y → (easter_sunday y).year ≡ y
year-easter_sunday y h = easter_sunday-year y ∙ full_year_lem y h

number-easter_sunday : (y : ℕ) → 100 ≤ y → number (easter_sunday y) ≤ before_year y + 116
unfolding number
number-easter_sunday y h =
    let same = year-easter_sunday y h in
    ground (arith, easter_sunday_bounds y, spring y, ap before_year same, same)

-- The last day of a year and the first of the next come late.
number-year_end : (y : ℕ) → before_year y + 365 ≤ number (day y 12 31)
unfolding number
number-year_end y = omega (arith, spring y)

number-new_year : (y : ℕ) → before_year y + 365 ≤ number (day (y + 1) 1 1)
unfolding number
number-new_year y = ground (arith, before_year-suc y)

module _ (y : ℕ) (d : Day) (h : 100 ≤ y) (late : before_year y + 365 ≤ number d) where
  -- The holidays that move come before.
  moving-ne : (n : ℕ) → n ≤ 50 → days_after n (easter_sunday y) ≢ d
  moving-ne n small e = omega (
    arith,
    ap number e,
    number-easter_sunday y h,
    number-days_after n (easter_sunday y) (easter-IsDay y),
  )

  good_friday-ne : days_before 2 (easter_sunday y) ≢ d
  good_friday-ne e = omega (
    arith,
    ap number e,
    number-easter_sunday y h,
    number-days_before 2 (easter_sunday y) (easter-IsDay y) (omega (arith, year-easter_sunday y h)),
  )

  -- So a late day is a holiday only if it is one of those that do not move.
  IsNoneOf-of_late :
      day y 1 1 ≢ d
      → day y 1 2 ≢ d
      → day y 8 1 ≢ d
      → day y 12 25 ≢ d
      → day y 12 26 ≢ d
      → IsNoneOf (feasts y) d
  IsNoneOf-of_late n1 n2 n3 n4 n5 =
      let moves = moving-ne 1 (omega arith) in
      let moves39 = moving-ne 39 (omega arith) in
      let moves50 = moving-ne 50 (omega arith) in
      (n1, (n2, (good_friday-ne, (moves, (moves39, (moves50, (n3, (n4, (n5, tt)))))))))

differs_by_month : (c d : Day) → c.month ≢ d.month → c ≢ d
differs_by_month c d n e = n (ap (λ (x : Day). x.month) e)

differs_by_date : (c d : Day) → c.date ≢ d.date → c ≢ d
differs_by_date c d n e = n (ap (λ (x : Day). x.date) e)

differs_by_year : (c d : Day) → c.year ≢ d.year → c ≢ d
differs_by_year c d n e = n (ap (λ (x : Day). x.year) e)

year_end-IsWorkday : (y : ℕ) → 100 ≤ y → IsNoneOf (feasts y) (day y 12 31)
year_end-IsWorkday y h =
    IsNoneOf-of_late y (day y 12 31) h (number-year_end y) (differs_by_month _ _ (omega arith))
      (differs_by_month _ _ (omega arith)) (differs_by_month _ _ (omega arith))
      (differs_by_date _ _ (omega arith)) (differs_by_date _ _ (omega arith))

new_year-IsNoneOf : (y : ℕ) → 100 ≤ y → IsNoneOf (feasts y) (day (y + 1) 1 1)
new_year-IsNoneOf y h =
    let n = differs_by_year in
    IsNoneOf-of_late y (day (y + 1) 1 1) h (number-new_year y) (n _ _ (omega arith))
      (n _ _ (omega arith)) (n _ _ (omega arith)) (n _ _ (omega arith)) (n _ _ (omega arith))

year_end-IsDay : (y : ℕ) → IsDay (day y 12 31)
unfolding month_length
year_end-IsDay y = ground arith

new_year-IsDay : (y : ℕ) → IsDay (day (y + 1) 1 1)
unfolding month_length
new_year-IsDay y = ground arith

day_after-year_end : (y : ℕ) → days_after 1 (day y 12 31) ≡ day (y + 1) 1 1
unfolding days_after next month_length
day_after-year_end y = refl

-- From the year 100 on, the last day of a year has no warning but that of a Friday, although the day after it is a
-- holiday, `Neujahr`, of the next year.
pub schedule_warnings-year_end :
    (y : ℕ)
    → 100 ≤ y
    → (schedule_warnings (day y 12 31)
        ≡ (if weekday (day y 12 31) == 5 then friday_text ∷ [] else []))
      × ¬ IsWorkday (days_after 1 (day y 12 31))
unfolding schedule_warnings
schedule_warnings-year_end y h =
    let today =
      (lookup-bern_holidays y (day y 12 31) (year_end-IsDay y)).1
        (rw (holiday_days-feasts y h) (year_end-IsWorkday y h)) in
    let eve =
      (lookup-bern_holidays y (day (y + 1) 1 1) (new_year-IsDay y)).1
        (rw (holiday_days-feasts y h) (new_year-IsNoneOf y h)) in
    (
      rw (today, day_after-year_end y, eve) (append-nil _),
      rw (day_after-year_end y) (λ n. n.0 refl),
    )

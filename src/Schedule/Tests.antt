-- ===== src/Schedule/Tests.antt =====
-- The schedule rules on days of 2025 and 2026, and the theorems there.
use release_radar.Prelude.{◌≡◌, ◌≢◌, ◌↔◌, refl, [], ◌∷◌, ◌==◌, arith, if◌then◌else◌}
use release_radar.Prelude.Dict.{lookup, insert}
use release_radar.Calendar.{
  day, IsDay, month_length, next, previous, days_after, days_before, number, before_year,
  before_month, weekday,
}
use release_radar.Schedule.{
  key, easter_sunday, holiday_days, add_all, bern_holidays, friday_text, schedule_warnings,
}
use release_radar.Schedule.Warnings.{IsWorkday, schedule_warnings-eq-nil_iff}
use release_radar.Schedule.NewYear.{schedule_warnings-year_end}

schedule_code : Unit {0}
unfolding schedule_warnings bern_holidays add_all holiday_days easter_sunday key lookup insert next
    previous month_length days_after days_before number before_year before_month weekday
schedule_code = tt

-- Auffahrt, its eve, a Friday, an ordinary Wednesday.
warnings :
    (schedule_warnings (day 2026 5 14) ≡ "Berner Feiertag: Auffahrt" ∷ [])
    × (schedule_warnings (day 2026 5 13) ≡ "Tag vor Berner Feiertag (Auffahrt)" ∷ [])
    × (schedule_warnings (day 2026 5 29) ≡ friday_text ∷ [])
    × (schedule_warnings (day 2026 5 27) ≡ [])
    × (schedule_warnings (day 2025 12 31) ≡ [])
unfolding schedule_code
warnings = (refl, refl, refl, refl, refl)

easters : (easter_sunday 2026 ≡ day 2026 4 5) × (easter_sunday 2038 ≡ day 2038 4 25)
unfolding schedule_code
easters = (refl, refl)

-- In the year 50 the first of January is no holiday of the source, whose table has that of 1950.
early_year : (schedule_warnings (day 50 1 1) ≡ []) × ((easter_sunday 50).year ≡ 1950)
unfolding schedule_code
early_year = (refl, refl)

today-IsDay : IsDay (day 2026 5 27)
unfolding month_length
today-IsDay = ground arith

schedule_warnings-eq-nil_iff_example : (schedule_warnings (day 2026 5 27) ≡ []) ↔ (
    (weekday (day 2026 5 27) ≢ 5)
    × IsWorkday (day 2026 5 27)
    × IsWorkday (days_after 1 (day 2026 5 27)))
schedule_warnings-eq-nil_iff_example =
    schedule_warnings-eq-nil_iff (day 2026 5 27) today-IsDay (omega arith) (λ e. omega (arith, e.0))

schedule_warnings-year_end_example :
    (schedule_warnings (day 2025 12 31)
      ≡ (if weekday (day 2025 12 31) == 5 then friday_text ∷ [] else []))
    × ¬ IsWorkday (days_after 1 (day 2025 12 31))
schedule_warnings-year_end_example = schedule_warnings-year_end 2025 (omega arith)

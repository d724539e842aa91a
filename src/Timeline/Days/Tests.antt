-- ===== src/Timeline/Days/Tests.antt =====
-- The columns of a timeline opened in the afternoon, and the theorem there.
use release_radar.Prelude.{
  ℕ, zero, suc, ◌+◌, ◌-◌, ◌*◌, ◌/◌, ◌%◌, ◌≡◌, refl, arith, Bool, true, false, List, [], ◌∷◌, All,
  map, ltb, if◌then◌else◌,
}
use release_radar.Calendar.{Day, day, month_length, weekday, number, before_year, before_month}
use release_radar.Stage.{ns_per_hour}
use release_radar.Timeline.{Zone, Timeline, new_timeline, day_ms, floor_days, start, today_idx}
use release_radar.Timeline.Steady.{IsSteady}
use release_radar.Prelude.Int.{pos}
use release_radar.Timeline.Days.{DayColumn, day_columns, pill_width, pixel}
use release_radar.Timeline.Days.Today.{IsMarked, day_columns-AreMarked}

days_code : Unit {0}
unfolding start today_idx floor_days day_columns pill_width weekday number before_year before_month
    month_length
days_code = tt

abbrev hour : ℕ
hour = 3600000

-- Opened at three on the third day, a Thursday, so that it starts on a Monday.
abbrev week : Timeline
week = record (new_timeline (3 * day_ms + 54000000)) { days = 5 }

abbrev local : ℕ → Day
local t = elim t [ zero ↦ day 2026 5 4 | suc n ↦ day 2026 5 7 ]

-- An hour ahead of UTC.
abbrev winter : Zone
winter = record {
  day_at = λ t. (t + hour) / day_ms;
  time_at = λ t. (t + hour) % day_ms;
  moment = λ d τ. d * day_ms + τ - hour;
}

winter-IsSteady : IsSteady winter hour
winter-IsSteady = record {
  splits = λ t. omega arith;
  short = λ t. omega arith;
  joins = λ d τ h. omega arith;
}

-- An hour ahead, and two from the second day at one on: the clocks go from two to three.
abbrev changes : ℕ
changes = day_ms + hour

abbrev ahead_at : ℕ → ℕ
ahead_at t = if ltb t changes then hour else 2 * hour

abbrev spring : Zone
spring = record {
  day_at = λ t. (t + ahead_at t) / day_ms;
  time_at = λ t. (t + ahead_at t) % day_ms;
  moment = λ d τ.
      if ltb (d * day_ms + τ) (changes + 2 * hour)
      then d * day_ms + τ - hour
      else d * day_ms + τ - 2 * hour;
}

abbrev marks : Zone → List Bool
unfolding days_code
marks zone = map (λ (c : DayColumn). c.is_today) (day_columns zone local week)

-- Where the clocks were put forward since the first day, today's index is that of the day before,
-- while its own column is marked.
columns :
    (marks winter ≡ false ∷ false ∷ false ∷ true ∷ false ∷ [])
    × (today_idx winter week ≡ pos 3)
    × (marks spring ≡ false ∷ false ∷ false ∷ true ∷ false ∷ [])
    × (today_idx spring week ≡ pos 2)
unfolding days_code
columns = (refl, refl, refl, refl)

widths :
    (pill_width
        (record { env = "prod1"; start_at = 0; duration_ns = 24 * ns_per_hour; status = "active" })
      ≡ 48 * pixel)
    × (pill_width
          (record { env = "prod1"; start_at = 0; duration_ns = 2 * ns_per_hour; status = "active" })
        ≡ 28 * pixel)
unfolding days_code
widths = (refl, refl)

day_columns-AreMarked_example : All (IsMarked winter week) (day_columns winter local week)
day_columns-AreMarked_example =
    day_columns-AreMarked winter hour winter-IsSteady local week (omega arith)

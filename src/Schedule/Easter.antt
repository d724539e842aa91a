-- ===== src/Schedule/Easter.antt =====
-- schedule-rules.ts: Easter, for every year.
use release_radar.Prelude.{refl, ℕ, ◌≤◌, ◌≡◌, ◌⊎◌, arith}
use release_radar.Calendar.{Day, full_year}
use release_radar.Schedule.{easter_sunday}

-- Easter lies between 22 March and 25 April.
pub easter_sunday_bounds :
    (y : ℕ)
    → (((easter_sunday y).month ≡ 3)
        × (22 ≤ (easter_sunday y).date)
        × ((easter_sunday y).date ≤ 31))
      ⊎ (((easter_sunday y).month ≡ 4)
          × (1 ≤ (easter_sunday y).date)
          × ((easter_sunday y).date ≤ 25))
unfolding easter_sunday
easter_sunday_bounds y = ground arith

-- The same date of the year itself.
abbrev easter_of : ℕ → Day
easter_of y = record (easter_sunday y) { year = y }

-- From the year 100 on a year is itself.
pub full_year_lem : (y : ℕ) → 100 ≤ y → full_year y ≡ y
full_year_lem y h = ground arith

pub easter_sunday-year : (y : ℕ) → (easter_sunday y).year ≡ full_year y
unfolding easter_sunday
easter_sunday-year y = refl

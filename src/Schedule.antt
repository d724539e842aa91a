-- ===== src/Schedule.antt =====
-- frontend/src/app/core/schedule-rules.ts: no rollouts on Fridays or before Bernese holidays.
pub mod Easter
pub mod Keys
pub mod Warnings
pub mod NewYear
mod Tests
use text.Mathlib.Text.{◌==◌ as str_eq}
use release_radar.Prelude.{
  ℕ, ◌+◌, ◌-◌, ◌*◌, ◌/◌, ◌%◌, List, [], ◌∷◌, ◌++◌, Option, none, some, String, ltb, ◌==◌,
  if◌then◌else◌,
}
pub use release_radar.Prelude.Text.{◌◇◌}
use release_radar.Prelude.Decimal.{decimal}
use release_radar.Prelude.Dict.{lookup, insert}
use release_radar.Calendar.{Day, new_date, days_after, days_before, weekday}

-- `String(n).padStart(2, '0')`
unfoldable pub pad : ℕ → String
unfolding decimal
pad n = if ltb n 10 then "0" ◇ decimal n else decimal n

unfoldable pub key : Day → String
unfolding pad
key d = decimal d.year ◇ "-" ◇ pad d.month ◇ "-" ◇ pad d.date

-- Easter Sunday of a year (Meeus, Jones, Butcher).
unfoldable pub easter_sunday : ℕ → Day
unfolding new_date
easter_sunday year =
    let a = year % 19 in
    let b = year / 100 in
    let c = year % 100 in
    let d = b / 4 in
    let e = b % 4 in
    let f = (b + 8) / 25 in
    let g = (b - f + 1) / 3 in
    let h = (19 * a + b - d - g + 15) % 30 in
    let i = c / 4 in
    let k = c % 4 in
    let l = (32 + 2 * e + 2 * i - h - k) % 7 in
    let m = (a + 11 * h + 22 * l) / 451 in
    let month = (h + l - 7 * m + 114) / 31 in
    let date = (h + l - 7 * m + 114) % 31 + 1 in new_date year month date

-- The holidays of a year with their names, in the order in which the source adds them.
unfoldable pub holiday_days : ℕ → List (Day × String)
unfolding new_date
holiday_days year =
    let easter = easter_sunday year in
    (new_date year 1 1, "Neujahr")
    ∷ (new_date year 1 2, "Berchtoldstag")
    ∷ (days_before 2 easter, "Karfreitag")
    ∷ (days_after 1 easter, "Ostermontag")
    ∷ (days_after 39 easter, "Auffahrt")
    ∷ (days_after 50 easter, "Pfingstmontag")
    ∷ (new_date year 8 1, "Bundesfeier")
    ∷ (new_date year 12 25, "Weihnachten")
    ∷ (new_date year 12 26, "Stephanstag")
    ∷ []

unfoldable pub add_all : List (Day × String) → List (String × String) → List (String × String)
add_all [] map = map
add_all ((d, name) ∷ rest) map = add_all rest (insert (key d) name map)

unfoldable pub bern_holidays : ℕ → List (String × String)
bern_holidays year = add_all (holiday_days year) []

-- `if (name) { out.push(...) }`: `undefined` and the empty text are no names.
abbrev pub warning : (String → String) → Option String → List String
warning text none = []
warning text (some name) = if str_eq name "" then [] else text name ∷ []

abbrev pub friday_text : String
friday_text = "Freitag — keine Rollouts an Freitagen"

abbrev pub holiday_text : String → String
holiday_text name = "Berner Feiertag: " ◇ name

abbrev pub eve_text : String → String
eve_text name = "Tag vor Berner Feiertag (" ◇ name ◇ ")"

unfoldable pub schedule_warnings : Day → List String
schedule_warnings d =
    let holidays = bern_holidays d.year in
    (if weekday d == 5 then friday_text ∷ [] else [])
    ++ (warning holiday_text (lookup (key d) holidays)
        ++ warning eve_text (lookup (key (days_after 1 d)) holidays))

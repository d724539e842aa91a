-- ===== src/ListView/Relative.antt =====
-- list-view.component.ts, and design/project/list-view.jsx: the texts of a row and of a group, and the
-- tables of the filters. `now` is the present moment.
pub mod Near
use text.Mathlib.Text.{◌==◌ as str_eq}
use release_radar.Prelude.{
  ℕ, zero, suc, ◌+◌, ◌-◌, ◌*◌, ◌/◌, Bool, true, false, not, ◌&&◌, String, Option, none, some, List,
  [], ◌∷◌, ltb, leb, ◌==◌, if◌then◌else◌,
}
use release_radar.Prelude.Decimal.{decimal}
use release_radar.Prelude.Dict.{lookup}
use release_radar.Prelude.Int.{ℤ, pos, negsuc, sub_ℕ}
use release_radar.Prelude.Text.{◌◇◌}
use release_radar.Stage.{ns_per_hour}
use release_radar.ListView.{ms_per_day, date_key}

-- The buttons of the filters, with their labels.
abbrev pub windows : List (String × String)
windows = ("upcoming", "Upcoming") ∷ ("all", "All") ∷ ("past", "Past") ∷ []

abbrev pub statuses : List (String × String)
statuses =
    ("all", "All")
    ∷ ("scheduled", "Scheduled")
    ∷ ("active", "In flight")
    ∷ ("blocked", "Blocked")
    ∷ ("done", "Done")
    ∷ []

abbrev pub status_tones : List (String × String)
status_tones =
    ("scheduled", "info")
    ∷ ("active", "ok")
    ∷ ("blocked", "danger")
    ∷ ("done", "neutral")
    ∷ ("failed", "danger")
    ∷ []

unfoldable pub status_tone : String → String
unfolding lookup
status_tone status = elim (lookup status status_tones) [ none ↦ "neutral" | some tone ↦ tone ]

-- `Math.round(nsToHours(ns))`
unfoldable pub hours : ℕ → ℕ
hours ns = (2 * ns + ns_per_hour) / (2 * ns_per_hour)

unfoldable pub is_today : ℕ → ℕ → Bool
is_today now d = date_key d == date_key now

unfoldable pub is_past : ℕ → ℕ → Bool
unfolding is_today
is_past now d = ltb d now && not (is_today now d)

-- `Math.round((d - now) / 86400000)`, which rounds a half up.
unfoldable pub day_diff : ℕ → ℕ → ℤ
day_diff now d =
    if leb now d
    then pos ((2 * (d - now) + ms_per_day) / (2 * ms_per_day))
    else sub_ℕ 0 ((2 * (now - d) + ms_per_day - 1) / (2 * ms_per_day))

-- `Math.ceil(n / 7)`
abbrev pub weeks : ℕ → ℕ
weeks n = (n + 6) / 7

abbrev pub plural : ℕ → String
plural n = if ltb n 14 then "" else "s"

abbrev pub ahead : ℕ → String
ahead n =
    if n == 1
    then "Tomorrow"
    else if ltb 0 n && ltb n 7
    then "in " ◇ decimal n ◇ " days"
    else if leb 7 n
    then "in " ◇ decimal (weeks n) ◇ " week" ◇ plural n
    else decimal (weeks n) ◇ " week" ◇ plural n ◇ " ago"

-- n days ago, for n above zero.
abbrev pub ago : ℕ → String
ago n = if ltb n 7 then decimal n ◇ " days ago" else decimal (weeks n) ◇ " week" ◇ plural n ◇ " ago"

abbrev pub rel_of : ℤ → String
rel_of (pos n) = ahead n
rel_of (negsuc n) = ago (suc n)

unfoldable pub rel_day : ℕ → ℕ → String
unfolding is_today day_diff
rel_day now d = if is_today now d then "Today" else rel_of (day_diff now d)

-- The prototype's, over the days from its TODAY.
unfoldable pub relative_day : ℤ → String
relative_day diff = elim diff [
  | pos n ↦ if n == 0 then "Today" else ahead n
  | negsuc n ↦ ago (suc n)
]

-- The prototype's badge of a status: its tone and its label.
abbrev pub status_badges : List (String × (String × String))
status_badges =
    ("scheduled", ("info", "scheduled"))
    ∷ ("active", ("ok", "in flight"))
    ∷ ("blocked", ("danger", "blocked"))
    ∷ ("done", ("neutral", "done"))
    ∷ ("failed", ("danger", "failed"))
    ∷ []

-- An unknown status looks as a scheduled one.
unfoldable pub status_badge : String → String × String
unfolding lookup
status_badge status = elim (lookup status status_badges) [
  | none ↦ ("info", "scheduled")
  | some b ↦ b
]

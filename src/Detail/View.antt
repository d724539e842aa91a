-- ===== src/Detail/View.antt =====
-- rollout-detail.component.ts: what the page shows besides the rollout itself: its type, the titles of
-- its locks, the advisories of its dates, and the texts of durations.
-- The local day of a moment is a parameter.
pub mod Advisories
pub mod Progress
mod Tests
use text.Mathlib.Text.{◌==◌ as str_eq}
use mathlib.Core.List.{flatten}
use release_radar.Prelude.{
  ℕ, zero, suc, ◌+◌, ◌-◌, ◌*◌, ◌/◌, true, String, Option, none, some, List, [], map, find, length,
  leb, get_elem?, if◌then◌else◌,
}
use release_radar.Prelude.Decimal.{decimal}
use release_radar.Prelude.Int.{ℤ, pos, sub_ℕ, negsuc, ltb_ℤ}
use release_radar.Prelude.Text.{join, ◌◇◌}
use release_radar.Calendar.{Day}
use release_radar.Rollout.{Rollout, RolloutStage, RolloutTask, RolloutType, Lock}
use release_radar.Schedule.{schedule_warnings}
use release_radar.Stage.{get_stage, ms_per_hour, ns_per_hour}
use release_radar.Detail.{Detail, blocking_locks, failed_count}

-- `catchError(() => of([]))`: a failed request gives the empty list.
abbrev pub answered {ℓ} : {A : Type ℓ} → Option (List A) → List A
answered none = []
answered (some xs) = xs

unfoldable pub type_of : Option Rollout → List RolloutType → Option RolloutType
type_of none types = none
type_of (some r) types = find (λ (t : RolloutType). str_eq t.id r.type_id) types

unfoldable pub lock_titles : Option Rollout → List Lock → String
unfolding blocking_locks
lock_titles r locks = join " • " (map (λ (l : Lock). l.title) (blocking_locks r locks))

module _ (initials : String → String) (day_of : ℕ → Day) where
  abbrev pub stage_advisories : RolloutStage → List String
  stage_advisories st =
      map (λ w. (get_stage initials st.env).label ◇ ": " ◇ w)
        (schedule_warnings (day_of st.start_at))

  unfoldable pub page_advisories : Option Rollout → List String
  page_advisories none = []
  page_advisories (some r) = flatten (map stage_advisories r.stages)

-- `(failed / all) * 100`, as a quotient: what is divided, and by what.
abbrev pub fraction : ℕ → ℕ → ℕ × ℕ
fraction n zero = (0, 1)
fraction n (suc m) = (n * 100, suc m)

unfoldable pub failed_pct : List RolloutTask → ℕ × ℕ
unfolding failed_count
failed_pct tasks = fraction (failed_count tasks) (length tasks)

-- `Math.round` of the hours of a number of nanoseconds.
unfoldable pub hours : ℕ → ℕ
hours ns = (2 * ns + ns_per_hour) / (2 * ns_per_hour)

-- `Math.round((b - a) / unit)`, of which a half is rounded up.
abbrev pub round_quotient : (unit a b : ℕ) → ℤ
round_quotient unit a b =
    let up = 2 * b + unit in
    if leb (2 * a) up
    then pos ((up - 2 * a) / (2 * unit))
    else sub_ℕ 0 ((2 * a - up + (2 * unit - 1)) / (2 * unit))

abbrev pub signed : ℤ → String
signed (pos n) = decimal n
signed (negsuc n) = "-" ◇ decimal (suc n)

abbrev pub gap_text : ℤ → String
gap_text (negsuc n) = signed (negsuc n) ◇ "h"
gap_text (pos h) = if leb 24 h then signed (round_quotient 24 0 h) ◇ "d" else decimal h ◇ "h"

-- The gap before a stage that has one before it.
abbrev pub gap_between : Option RolloutStage → Option RolloutStage → Option String
gap_between (some prev) (some st) =
    some (gap_text (round_quotient ms_per_hour prev.start_at st.start_at))
gap_between (some prev) none = none
gap_between none st = none

unfoldable pub stage_gap : List RolloutStage → ℕ → Option String
unfolding decimal
stage_gap stages zero = none
stage_gap stages (suc i) = gap_between (get_elem? stages i) (get_elem? stages (suc i))

unfoldable pub back : Detail → Detail
back s = record s { left = true }

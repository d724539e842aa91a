-- ===== src/Timeline.antt =====
-- frontend/src/app/features/timeline/timeline-view/timeline-view.component.ts, and the same geometry in
-- design/project/timeline.jsx: where the timeline draws days, stages, cascades and locks.
-- A moment is its number of milliseconds since 1970, at UTC. Local time is a parameter: what a `Date`
-- says of a moment, and the moment that it has for a local day and time, also where the clocks change.
-- Columns and pixels are integers.
pub mod Steady
pub mod Columns
pub mod Days
pub mod Prototype
pub mod Page
mod Tests
use release_radar.Prelude.{
  ℕ, zero, suc, ◌+◌, ◌-◌, ◌*◌, ◌/◌, Option, none, some, List, [], ◌∷◌, map, leb, max, if◌then◌else◌,
  length,
}
use release_radar.Prelude.Int.{ℤ, pos, negsuc, sub_ℕ, ltb_ℤ, ◌+ℤ◌, ◌-ℤ◌, ◌*ℤ◌}
use release_radar.Rollout.{Rollout, RolloutStage, Lock}

abbrev pub day_w : ℕ
day_w = 56

abbrev pub row_h : ℕ
row_h = 64

abbrev pub label_w : ℕ
label_w = 280

abbrev pub day_ms : ℕ
day_ms = 86400000

-- `Math.floor((a - b) / 86400000)`
unfoldable pub floor_days : ℕ → ℕ → ℤ
floor_days a b =
    if leb b a then pos ((a - b) / day_ms) else sub_ℕ 0 ((b - a + (day_ms - 1)) / day_ms)

-- The local day of a moment, counted in days, its milliseconds since the day began, and the moment
-- of a day and a time.
pub record Zone : Type 0 where
  pub day_at : ℕ → ℕ
  pub time_at : ℕ → ℕ
  pub moment : ℕ → ℕ → ℕ

-- `setDate(getDate() + n)`: the same local time, some days before or after.
abbrev pub add_days : Zone → ℕ → ℤ → ℕ
add_days zone t (pos n) = zone.moment (zone.day_at t + n) (zone.time_at t)
add_days zone t (negsuc n) = zone.moment (zone.day_at t - suc n) (zone.time_at t)

pub record Timeline : Type 0 where
  pub offset : ℤ
  pub days : ℕ
  pub today : ℕ

abbrev pub new_timeline : ℕ → Timeline
new_timeline now = record { offset = negsuc 2; days = 28; today = now }

pub record Overlay : Type 0 where
  pub lock : Lock
  pub left : ℤ
  pub width : ℤ

module _ (zone : Zone) where
  unfoldable pub start : Timeline → ℕ
  start s = add_days zone s.today s.offset

  unfoldable pub today_idx : Timeline → ℤ
  unfolding start floor_days
  today_idx s = floor_days s.today (start s)

  unfoldable pub stage_idx : Timeline → RolloutStage → ℤ
  unfolding start floor_days
  stage_idx s st = floor_days st.start_at (start s)

  unfoldable pub placed : Timeline → Rollout → List (RolloutStage × ℤ)
  unfolding stage_idx
  placed s r = map (λ st. (st, stage_idx s st)) r.stages

  unfoldable pub lock_overlay : Timeline → Lock → Overlay
  unfolding start floor_days
  lock_overlay s l =
      let from = floor_days l.start_at (start s) in
      let to = floor_days l.end_at (start s) in
      record { lock = l; left = from *ℤ pos day_w; width = (to -ℤ from +ℤ pos 1) *ℤ pos day_w }

abbrev pub total_height : List Rollout → ℕ
total_height rollouts = length rollouts * row_h

-- As many days as fit beside the labels, and a week at least.
unfoldable pub fit_days : ℕ → Timeline → Timeline
fit_days client_width s = record s { days = max 7 ((client_width - label_w - 2) / day_w) }

unfoldable pub step_week : ℤ → Timeline → Timeline
step_week delta s = record s { offset = s.offset +ℤ delta }

unfoldable pub reset_to_today : Timeline → Timeline
reset_to_today s = record s { offset = negsuc 2 }

unfoldable pub pill_left : ℤ → ℤ
pill_left idx = idx *ℤ pos day_w +ℤ pos 4

-- The connector of two stages: where it begins, and its width, if it has one.
unfoldable pub cascade : ℤ → ℤ → Option (ℤ × ℤ)
cascade from to =
    let left = from *ℤ pos day_w +ℤ pos 44 in
    let right = to *ℤ pos day_w +ℤ pos 12 in
    let w = right -ℤ left in if ltb_ℤ (pos 0) w then some (left, w) else none

-- ===== src/Timeline/Tests.antt =====
-- A timeline opened in the afternoon, and the theorem there.
use release_radar.Prelude.{ℕ, ◌+◌, ◌*◌, ◌/◌, ◌%◌, ◌≡◌, refl, arith, ltb, if◌then◌else◌, none, some}
use release_radar.Prelude.Int.{pos, sub_ℕ, ◌+ℤ◌, ◌-ℤ◌, ◌*ℤ◌}
use release_radar.Rollout.{RolloutStage}
use release_radar.Timeline.{
  Zone, Timeline, new_timeline, day_ms, floor_days, start, today_idx, stage_idx, lock_overlay,
  fit_days, step_week, reset_to_today, cascade, pill_left,
}
use release_radar.Timeline.Columns.{first_day, stage_idx_lem}
use release_radar.Timeline.Steady.{IsSteady}

timeline_code : Unit {0}
unfolding start floor_days today_idx stage_idx lock_overlay fit_days step_week reset_to_today
    cascade pill_left ◌+ℤ◌ ◌-ℤ◌ ◌*ℤ◌
timeline_code = tt

abbrev hour : ℕ
hour = 3600000

-- Local time is UTC.
abbrev utc : Zone
utc = record { day_at = λ t. t / day_ms; time_at = λ t. t % day_ms; moment = λ d τ. d * day_ms + τ }

-- Opened at three on day 100, so that it starts on day 97.
abbrev timeline : Timeline
timeline = new_timeline (100 * day_ms + 15 * hour)

abbrev stage_at : ℕ → RolloutStage
stage_at t = record { env = "prod1"; start_at = t; duration_ns = 0; status = "scheduled" }

-- Today is in column 3, and a stage of this morning in column 2.
columns :
    (today_idx utc timeline ≡ pos 3)
    × (stage_idx utc timeline (stage_at (100 * day_ms + 16 * hour)) ≡ pos 3)
    × (stage_idx utc timeline (stage_at (100 * day_ms + 9 * hour)) ≡ pos 2)
unfolding timeline_code
columns = (refl, refl, refl)

connected : (cascade (pos 2) (pos 9) ≡ some (pos 156, pos 360)) × (cascade (pos 2) (pos 2) ≡ none)
unfolding timeline_code
connected = (refl, refl)

weeks : (fit_days 1000 (reset_to_today (step_week (pos 7) timeline))).days ≡ 12
unfolding timeline_code
weeks = refl

utc-IsSteady : IsSteady utc 0
utc-IsSteady = record {
  splits = λ t. omega arith;
  short = λ t. omega arith;
  joins = λ d τ h. omega arith;
}

stage_idx_lem_example : stage_idx utc timeline (stage_at (100 * day_ms + 9 * hour)) ≡ (
    if ltb (utc.time_at (100 * day_ms + 9 * hour)) (utc.time_at (100 * day_ms + 15 * hour))
    then sub_ℕ (utc.day_at (100 * day_ms + 9 * hour)) (first_day utc timeline + 1)
    else sub_ℕ (utc.day_at (100 * day_ms + 9 * hour)) (first_day utc timeline))
stage_idx_lem_example =
    stage_idx_lem utc 0 timeline (stage_at (100 * day_ms + 9 * hour)) utc-IsSteady (omega arith)

-- ===== src/Timeline/Columns.antt =====
-- timeline-view.component.ts: the column of a stage.
use release_radar.Prelude.{ℕ, ◌+◌, ◌*◌, ◌<◌, ◌≤◌, ◌≡◌, ◌∙◌, ap, ap₂, arith, ltb, if◌then◌else◌}
use release_radar.Prelude.Int.{sub_ℕ}
use release_radar.Rollout.{RolloutStage}
use release_radar.Timeline.{Zone, Timeline, day_ms, floor_days, start, stage_idx}
use release_radar.Timeline.Steady.{
  IsSteady, days_ago, day_from, moved, add_days_steady, moved_splits,
}

floor_days_lem :
    (d e σ τ : ℕ)
    → σ < day_ms
    → τ < day_ms
    → floor_days (d * day_ms + σ) (e * day_ms + τ)
      ≡ (if ltb σ τ then sub_ℕ d (e + 1) else sub_ℕ d e)
unfolding floor_days
floor_days_lem d e σ τ h k = ground arith

floor_days_ahead : (a b ahead : ℕ) → floor_days a b ≡ floor_days (a + ahead) (b + ahead)
unfolding floor_days
floor_days_ahead a b ahead = ground arith

-- The local day of the first column: that of the moment at which the timeline was opened, moved by the
-- offset.
abbrev pub first_day : Zone → Timeline → ℕ
first_day zone s = day_from (zone.day_at s.today) s.offset

-- Where the clocks do not change, and where the first column is not before 1970, a stage whose time of
-- the day is not before that at which the timeline was opened is drawn as many columns after the first
-- one as its day is after the first day; a stage whose time of the day is before that is drawn one
-- column further left, in that of the day before.
pub stage_idx_lem :
    (zone : Zone) (ahead : ℕ) (s : Timeline) (st : RolloutStage)
    → IsSteady zone ahead
    → days_ago s.offset * day_ms ≤ s.today
    → stage_idx zone s st ≡ (
        if ltb (zone.time_at st.start_at) (zone.time_at s.today)
        then sub_ℕ (zone.day_at st.start_at) (first_day zone s + 1)
        else sub_ℕ (zone.day_at st.start_at) (first_day zone s))
unfolding stage_idx start
stage_idx_lem zone ahead s st steady h =
    let moves = add_days_steady zone ahead steady s.today s.offset h in
    let first = moved_splits zone ahead steady s.today s.offset h in
    ap (floor_days st.start_at) moves
    ∙ floor_days_ahead st.start_at (moved s.today s.offset) ahead
    ∙ ap₂ floor_days (steady.splits st.start_at) first
    ∙ floor_days_lem (zone.day_at st.start_at) (first_day zone s) (zone.time_at st.start_at)
        (zone.time_at s.today) (steady.short st.start_at) (steady.short s.today)

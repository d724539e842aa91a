-- ===== src/Timeline/Steady.antt =====
-- timeline-view.component.ts: local time where the clocks do not change.
use release_radar.Prelude.{ℕ, suc, ◌+◌, ◌-◌, ◌*◌, ◌<◌, ◌≤◌, ◌≡◌, arith}
use release_radar.Prelude.Int.{ℤ, pos, negsuc}
use release_radar.Timeline.{Zone, add_days, day_ms}

-- Local time is ahead of UTC by the same time at every moment.
pub record IsSteady (zone : Zone) (ahead : ℕ) : Type 0 where
  pub splits : (t : ℕ) → t + ahead ≡ zone.day_at t * day_ms + zone.time_at t
  pub short : (t : ℕ) → zone.time_at t < day_ms
  pub joins : (d τ : ℕ) → ahead ≤ d * day_ms + τ → zone.moment d τ + ahead ≡ d * day_ms + τ

-- How many days before today the first column is.
abbrev pub days_ago : ℤ → ℕ
days_ago (pos n) = 0
days_ago (negsuc n) = suc n

-- A day some days later or earlier.
abbrev pub day_from : ℕ → ℤ → ℕ
day_from d (pos n) = d + n
day_from d (negsuc n) = d - suc n

abbrev pub moved : ℕ → ℤ → ℕ
moved t (pos n) = t + n * day_ms
moved t (negsuc n) = t - suc n * day_ms

module _ (zone : Zone) (ahead : ℕ) (steady : IsSteady zone ahead) where
  -- `addDays` adds whole days of 24 hours.
  pub add_days_steady : (t : ℕ) (z : ℤ) → days_ago z * day_ms ≤ t → add_days zone t z ≡ moved t z
  add_days_steady t (pos n) h =
      omega
        (arith, steady.splits t, steady.short t, steady.joins (zone.day_at t + n) (zone.time_at t))
  add_days_steady t (negsuc n) h = omega (
    arith,
    steady.splits t,
    steady.short t,
    steady.joins (zone.day_at t - suc n) (zone.time_at t),
  )

  -- It keeps the time of the day.
  pub moved_splits :
      (t : ℕ) (z : ℤ)
      → days_ago z * day_ms ≤ t
      → moved t z + ahead ≡ day_from (zone.day_at t) z * day_ms + zone.time_at t
  moved_splits t (pos n) h = omega (arith, steady.splits t)
  moved_splits t (negsuc n) h = omega (arith, steady.splits t, steady.short t)

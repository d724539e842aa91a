-- ===== src/Timeline/Days/Today.antt =====
-- timeline-view.component.ts: which column is today's.
use release_radar.Prelude.{
  ℕ, zero, suc, ◌+◌, ◌-◌, ◌*◌, ◌≤◌, ◌≡◌, ◌↔◌, subst, sym, true, All, arith, ◌==◌,
}
use release_radar.Prelude.Int.{ℤ, pos, negsuc}
use release_radar.Calendar.{Day}
use release_radar.Rollout.{RolloutStage}
use release_radar.Stage.{ns_per_hour}
use release_radar.Timeline.{Timeline, day_ms, Zone, day_w, add_days, floor_days, start, today_idx}
use release_radar.Timeline.Steady.{IsSteady, days_ago, moved, add_days_steady}
use release_radar.Timeline.Days.{
  DayColumn, date_key, day_column, columns_behind, day_columns, pixel, pill_width, or_hour,
}

abbrev pub IsMarked : Zone → Timeline → DayColumn → Type 0
IsMarked zone s c = (c.is_today ≡ true) ↔ (pos c.i ≡ today_idx zone s)

key_iff :
    (t i : ℕ) (z : ℤ)
    → days_ago z * day_ms ≤ t
    → ((date_key (moved t z + i * day_ms) == date_key t) ≡ true)
      ↔ (pos i ≡ floor_days t (moved t z))
unfolding floor_days
key_iff t i (pos n) h = ground arith
key_iff t i (negsuc n) h = ground arith

module _ (zone : Zone) (ahead : ℕ) (steady : IsSteady zone ahead) (day_of : ℕ → Day) where
  day_column-IsMarked :
      (s : Timeline) (i : ℕ)
      → days_ago s.offset * day_ms ≤ s.today
      → IsMarked zone s (day_column zone day_of s i)
  unfolding start today_idx
  day_column-IsMarked s i h =
      let first = add_days_steady zone ahead steady s.today s.offset h in
      let column =
        add_days_steady zone ahead steady (add_days zone s.today s.offset) (pos i) (omega arith) in
      subst
        (λ d.
          ((date_key d == date_key s.today) ≡ true)
          ↔ (pos i ≡ floor_days s.today (add_days zone s.today s.offset)))
        (sym column)
        (subst
          (λ b.
            ((date_key (b + i * day_ms) == date_key s.today) ≡ true)
            ↔ (pos i ≡ floor_days s.today b))
          (sym first) (key_iff s.today i s.offset h))

  columns_behind-AreMarked :
      (s : Timeline) (i n : ℕ)
      → days_ago s.offset * day_ms ≤ s.today
      → All (IsMarked zone s) (columns_behind zone day_of s i n)
  columns_behind-AreMarked s i zero h = tt
  columns_behind-AreMarked s i (suc n) h =
      (day_column-IsMarked s i h, columns_behind-AreMarked s (i + 1) n h)

  -- Where the clocks do not change, and where the first column is not before 1970, exactly the column
  -- with today's index is marked as today, wherever UTC changes the date.
  pub day_columns-AreMarked :
      (s : Timeline)
      → days_ago s.offset * day_ms ≤ s.today
      → All (IsMarked zone s) (day_columns zone day_of s)
  unfolding day_columns
  day_columns-AreMarked s h = columns_behind-AreMarked s 0 s.days h

or_hour_le : (ns : ℕ) → ns ≤ 24 * ns_per_hour → or_hour ns ≤ 24 * ns_per_hour
or_hour_le zero h = omega arith
or_hour_le (suc n) h = h

-- A stage of up to a day is drawn inside its column: it leaves four pixels on both sides.
pub pill_width-IsInside :
    (st : RolloutStage) → st.duration_ns ≤ 24 * ns_per_hour → pill_width st ≤ (day_w - 8) * pixel
unfolding pill_width
pill_width-IsInside st h = let k = or_hour_le st.duration_ns h in omega arith

-- ===== src/Timeline/Days.antt =====
-- timeline-view.component.ts: the columns' days, the types by their ids, and the width of a stage.
-- The texts of the days are left out. The calendar's fields of a local day are a parameter.
pub mod Today
mod Tests
use release_radar.Prelude.{
  ℕ, zero, suc, ◌+◌, ◌-◌, ◌*◌, ◌/◌, Bool, ◌||◌, String, List, [], ◌∷◌, ◌==◌, max,
}
use release_radar.Prelude.Dict.{insert}
use release_radar.Calendar.{Day, weekday}
use release_radar.Rollout.{RolloutStage, RolloutType}
use release_radar.Stage.{ns_per_hour}
use release_radar.Prelude.Int.{pos}
use release_radar.Timeline.{Timeline, Zone, add_days, day_ms, start, day_w}

-- The number of the UTC day, which the text of the key writes.
abbrev pub date_key : ℕ → ℕ
date_key t = t / day_ms

pub record DayColumn : Type 0 where
  pub i : ℕ
  pub date : ℕ
  pub is_today : Bool
  pub is_weekend : Bool
  pub is_friday : Bool
  pub shows_month : Bool

module _ (zone : Zone) (day_of : ℕ → Day) where
  abbrev pub day_column : Timeline → ℕ → DayColumn
  day_column s i =
      let date = add_days zone (start zone s) (pos i) in
      let local = day_of (zone.day_at date) in
      let dow = weekday local in
      record {
        i = i;
        date = date;
        is_today = date_key date == date_key s.today;
        is_weekend = dow == 0 || dow == 6;
        is_friday = dow == 5;
        shows_month = i == 0 || (local.date == 1 || dow == 1);
      }

  -- The columns from the i-th one on.
  abbrev pub columns_behind : Timeline → ℕ → ℕ → List DayColumn
  columns_behind s i zero = []
  columns_behind s i (suc n) = day_column s i ∷ columns_behind s (i + 1) n

  unfoldable pub day_columns : Timeline → List DayColumn
  unfolding start
  day_columns s = columns_behind s 0 s.days

-- A later type of the same id takes the place of an earlier one.
abbrev pub set_types : List RolloutType → List (String × RolloutType) → List (String × RolloutType)
set_types [] m = m
set_types (t ∷ types) m = set_types types (insert t.id t m)

unfoldable pub type_map : List RolloutType → List (String × RolloutType)
type_map types = set_types types []

-- `durationHours || 1`, in nanoseconds.
abbrev pub or_hour : ℕ → ℕ
or_hour zero = ns_per_hour
or_hour (suc n) = suc n

-- A pixel, in the parts in which the width of a stage is a whole number.
abbrev pub pixel : ℕ
pixel = 24 * ns_per_hour

-- `Math.max(28, (hours / 24) * DAY_W - 8)`, in parts of a pixel.
unfoldable pub pill_width : RolloutStage → ℕ
pill_width st = max (28 * pixel) (or_hour st.duration_ns * day_w - 8 * pixel)

-- ===== src/ListView/Tests.antt =====
-- The list of two rollouts, and the theorems there.
use mathlib.Core.List.{flatten}
use release_radar.Prelude.{
  ℕ, ◌+◌, ◌*◌, ◌≡◌, ◌↔◌, refl, arith, false, String, List, [], ◌∷◌, map, length, All,
}
use release_radar.Prelude.Dict.{lookup, insert}
use release_radar.ListView.{
  Stage, Rollout, Row, Group, ms_per_day, insert_row, sort_rows, rows, upcoming, all, Filters,
  is_shown, filtered_rows, group_from, groups, count_rows, status_counts, count,
}
use release_radar.ListView.Order.{IsSorted}
use release_radar.Prelude.Occurs.{Occurs}
use release_radar.ListView.Content.{IsRowOf, Passes, stage_count, rows_lem}
use release_radar.Prelude.Decimal.{decimal}
use release_radar.Prelude.Int.{pos}
use release_radar.ListView.Relative.{
  rel_day, is_today, day_diff, relative_day, status_tone, hours, is_past,
}
use release_radar.ListView.Relative.Near.{rel_day_near}
use release_radar.ListView.Groups.{rows_of, IsOfDay, Ascends, groups_lem}

list_code : Unit {0}
unfolding insert_row sort_rows rows is_shown filtered_rows group_from groups count_rows
    status_counts count lookup insert
list_code = tt

abbrev stage_at : ℕ → String → Stage
stage_at t status = record { env = "prod1"; start_at = t; status = status }

abbrev rollouts : List Rollout
rollouts =
    record {
      id = "r-1";
      product = "operator";
      stages = stage_at (2 * ms_per_day + 5) "done" ∷ stage_at (5 * ms_per_day) "scheduled" ∷ [];
    }
    ∷ record {
      id = "r-2";
      product = "monalesy";
      stages = stage_at (2 * ms_per_day) "scheduled" ∷ [];
    }
    ∷ []

abbrev filters : Filters
filters = record { window = all; status = "all"; product = "all" }

days :
    map {B = ℕ × ℕ} (λ (g : Group). (g.key, length g.rows)) (groups (rows rollouts))
    ≡ (2, 2) ∷ (5, 1) ∷ []
unfolding list_code
days = refl

shown :
    length (filtered_rows (3 * ms_per_day) (record filters { window = upcoming }) (rows rollouts))
    ≡ 1
unfolding list_code
shown = refl

counts :
    (count (rows rollouts) "scheduled" ≡ 2)
    × (count (rows rollouts) "all" ≡ 3)
    × (count (rows rollouts) "failed" ≡ 0)
unfolding list_code
counts = (refl, refl, refl)

-- The row of the second stage of the first rollout.
abbrev second : Row
second = record {
  index = 1;
  rollout = record {
    id = "r-1";
    product = "operator";
    stages = stage_at (2 * ms_per_day + 5) "done" ∷ stage_at (5 * ms_per_day) "scheduled" ∷ [];
  };
  stage = stage_at (5 * ms_per_day) "scheduled";
  date = 5 * ms_per_day;
}

rows_lem_example :
    IsSorted (filtered_rows 0 filters (rows rollouts))
    × (Occurs second (filtered_rows 0 filters (rows rollouts))
        ↔ (IsRowOf rollouts second × Passes 0 filters second))
    × (length (rows rollouts) ≡ stage_count rollouts)
rows_lem_example = rows_lem 0 filters rollouts second

groups_lem_example :
    (flatten (rows_of (groups (filtered_rows 7 filters (rows rollouts))))
      ≡ filtered_rows 7 filters (rows rollouts))
    × All IsOfDay (groups (filtered_rows 7 filters (rows rollouts)))
    × Ascends (groups (filtered_rows 7 filters (rows rollouts)))
groups_lem_example = groups_lem 7 filters rollouts

-- Today at eight in the evening, and tomorrow at two in the morning.
rel_day_near_example : rel_day (20 * 3600000) (26 * 3600000) ≡ "0 week ago"
rel_day_near_example =
    rel_day_near (20 * 3600000) (26 * 3600000) (omega arith) (omega arith)
      (λ e. absurd (omega arith))

called :
    (rel_day 0 (2 * 86400000) ≡ "in 2 days")
    × (rel_day (4 * 86400000) 0 ≡ "4 days ago")
    × (rel_day 0 (8 * 86400000) ≡ "in 2 week")
    × (relative_day (pos 0) ≡ "Today")
    × (status_tone "failed" ≡ "danger")
    × (hours 5400000000000 ≡ 2)
    × (is_past 0 5 ≡ false)
unfolding rel_day is_today day_diff relative_day status_tone hours is_past decimal lookup
called = (refl, refl, refl, refl, refl, refl, refl)

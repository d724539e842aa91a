-- ===== src/Timeline/Prototype/Tests.antt =====
-- The prototype's timeline of the mock data, and the theorem there.
use release_radar.Prelude.{◌≡◌, refl, true, false, some, [], ◌∷◌, length, suc}
use release_radar.Prelude.Decimal.{decimal}
use release_radar.Prelude.Text.{◌◇◌}
use release_radar.Prelude.Int.{ℤ, pos, negsuc, ◌+ℤ◌, ◌-ℤ◌, ◌*ℤ◌}
use release_radar.Calendar.{
  next, previous, days_after, days_before, number, weekday, before_year, before_month, month_length,
}
use release_radar.Data.{MockLock, is_friday}
use release_radar.Rollout.{manual}
use release_radar.Timeline.{pill_left, cascade}
use release_radar.Timeline.Prototype.{
  lock_span, is_drawn, lock_layer, pill_width, stage_index, pills, cascades, days_header,
  friday_columns, weekend_columns, today_line, cascade_label,
}
use release_radar.Timeline.Prototype.Labels.{cascade_label_lem}
use release_radar.Timeline.Prototype.Covers.{Covers}

prototype_code : Unit {0}
unfolding lock_span is_drawn lock_layer pill_width stage_index pills cascades days_header
    friday_columns weekend_columns today_line ◌+ℤ◌ ◌-ℤ◌ ◌*ℤ◌ next previous days_after days_before
    number weekday before_year before_month month_length is_friday pill_left cascade
prototype_code = tt

abbrev lock : ℤ → ℤ → MockLock
lock from to = record {
  id = "l";
  title = "Bug";
  description = "";
  contact = "";
  start_offset = from;
  end_offset = to;
  products = "all" ∷ [];
  kind = manual;
}

-- From three days before today: today's line, and the Fridays of the first two weeks.
lines : (today_line (negsuc 2) 28 ≡ some 196) × (length (friday_columns (negsuc 2) 14) ≡ 2)
unfolding prototype_code
lines = (refl, refl)

-- A duration of two is drawn over two days, whether it stands for hours or not.
wide : (pill_width 2 ≡ 104) × (pill_width 0 ≡ 48)
unfolding prototype_code
wide = (refl, refl)

drawn :
    (is_drawn (lock_span (lock (pos 0) (pos 1)) (negsuc 2)) 7 ≡ true)
    × (is_drawn (lock_span (lock (pos 9) (pos 9)) (negsuc 2)) 7 ≡ false)
unfolding prototype_code
drawn = (refl, refl)

cascade_label_lem_example :
    cascade_label (negsuc 1) (negsuc 1 +ℤ pos (suc 6)) ≡ some ("+" ◇ decimal 6 ◇ "d")
cascade_label_lem_example = cascade_label_lem (negsuc 1) 6

-- A week is written as six days.
week_label : cascade_label (pos 2) (pos 9) ≡ some "+6d"
unfolding prototype_code cascade_label decimal
week_label = refl

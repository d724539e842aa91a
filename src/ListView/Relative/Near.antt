-- ===== src/ListView/Relative/Near.antt =====
-- list-view.component.ts: what a day that is near is called.
use release_radar.Prelude.{ℕ, ◌+◌, ◌*◌, ◌≤◌, ◌<◌, ◌≡◌, ◌≢◌, refl, false, arith}
use release_radar.Prelude.Decimal.{decimal}
use release_radar.Prelude.Int.{pos}
use release_radar.ListView.{ms_per_day, date_key}
use release_radar.ListView.Relative.{is_today, day_diff, rel_day}

day_diff_near :
    (now d : ℕ)
    → 2 * d < 2 * now + ms_per_day
    → 2 * now ≤ 2 * d + ms_per_day
    → day_diff now d ≡ pos 0
unfolding day_diff
day_diff_near now d h k = ground arith

is_today_ne : (now d : ℕ) → date_key d ≢ date_key now → is_today now d ≡ false
unfolding is_today
is_today_ne now d h = ground arith

-- A moment at most half a day before now, or less than half a day after it, is said to be 0 week ago if it
-- lies on another day: also if it is to come.
pub rel_day_near :
    (now d : ℕ)
    → 2 * d < 2 * now + ms_per_day
    → 2 * now ≤ 2 * d + ms_per_day
    → date_key d ≢ date_key now
    → rel_day now d ≡ "0 week ago"
unfolding rel_day decimal
rel_day_near now d h k other = rw (is_today_ne now d other, day_diff_near now d h k) refl

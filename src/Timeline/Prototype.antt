-- ===== src/Timeline/Prototype.antt =====
-- design/project/timeline.jsx: what the prototype's timeline draws, over whole days from its TODAY.
pub mod Covers
pub mod Labels
mod Tests
use text.Mathlib.Text.{◌==◌ as str_eq}
use release_radar.Prelude.{
  ℕ, zero, suc, ◌+◌, ◌-◌, ◌*◌, ◌/◌, Bool, true, false, not, ◌&&◌, ◌||◌, String, Option, none, some,
  List, [], ◌∷◌, filter, map, max, ltb, leb, ◌==◌, if◌then◌else◌,
}
use release_radar.Prelude.Decimal.{decimal}
use release_radar.Prelude.Text.{◌◇◌}
use release_radar.Prelude.Int.{ℤ, pos, negsuc, ltb_ℤ, ◌+ℤ◌, ◌-ℤ◌, ◌*ℤ◌}
use release_radar.Calendar.{Day, days_after, days_before, weekday}
use release_radar.Data.{MockLock, MockStage, is_friday, today}
use release_radar.Filter.{Criteria}
use release_radar.Timeline.{day_w, row_h, pill_left, cascade}

abbrev pub stage_order : List String
stage_order = "non-prod" ∷ "prod1" ∷ "prod2" ∷ []

-- A lock's columns, from the first one shown: `offset` is the day at which the timeline starts.
pub record Span : Type 0 where
  pub left : ℤ
  pub width : ℤ

unfoldable pub lock_span : MockLock → ℤ → Span
lock_span lock offset =
    let start_delta = lock.start_offset -ℤ offset in
    let end_delta = lock.end_offset -ℤ offset in
    record {
      left = start_delta *ℤ pos day_w;
      width = (end_delta -ℤ start_delta +ℤ pos 1) *ℤ pos day_w;
    }

-- A lock that lies outside the columns is not drawn.
unfoldable pub is_drawn : Span → ℕ → Bool
is_drawn s days = not (ltb_ℤ (s.left +ℤ s.width) (pos 0) || ltb_ℤ (pos (days * day_w)) s.left)

abbrev pub spans_from : List MockLock → ℤ → List (MockLock × Span)
spans_from locks offset = map (λ l. (l, lock_span l offset)) locks

unfoldable pub lock_layer : List MockLock → ℤ → ℕ → List (MockLock × Span)
unfolding lock_span is_drawn
lock_layer locks offset days =
    filter (λ (e : MockLock × Span). is_drawn e.1 days) (spans_from locks offset)

-- `duration || 1`
abbrev pub or_one : ℕ → ℕ
or_one zero = 1
or_one (suc n) = suc n

unfoldable pub pill_width : ℕ → ℕ
pill_width duration = max 28 (or_one duration * day_w - 8)

-- Where the stages of a rollout are drawn, with the connectors between them.
pub record Pill : Type 0 where
  pub stage : MockStage
  pub left : ℤ
  pub width : ℕ

unfoldable pub stage_index : ℤ → MockStage → ℤ
stage_index offset st = st.offset -ℤ offset

unfoldable pub pills : ℤ → List MockStage → List Pill
unfolding stage_index pill_left pill_width
pills offset stages =
    map
      (λ (st : MockStage). record {
        stage = st;
        left = pill_left (stage_index offset st);
        width = pill_width st.duration;
      })
      stages

unfoldable pub cascades : ℤ → List MockStage → List (Option (ℤ × ℤ))
unfolding stage_index cascade
cascades offset [] = []
cascades offset (a ∷ []) = []
cascades offset (a ∷ b ∷ stages) =
    let rest = cascades offset (b ∷ stages) in
    cascade (stage_index offset a) (stage_index offset b) ∷ rest

-- The text on a connector: `Math.round(w / DAY_W)` days of its width, which is above 0.
abbrev pub label_days : ℕ → ℕ
label_days w = (2 * w + day_w) / (2 * day_w)

abbrev pub label_of : Option (ℤ × ℤ) → Option String
label_of none = none
label_of (some (left, pos w)) = some ("+" ◇ decimal (label_days w) ◇ "d")
label_of (some (left, negsuc w)) = none

unfoldable pub cascade_label : ℤ → ℤ → Option String
unfolding cascade decimal
cascade_label from to = label_of (cascade from to)

-- The flags of a day in the header.
pub record DayCell : Type 0 where
  pub date : Day
  pub is_today : Bool
  pub is_weekend : Bool
  pub is_fri : Bool
  pub shows_month : Bool

abbrev pub same_day : Day → Day → Bool
same_day a b = a.year == b.year && (a.month == b.month && a.date == b.date)

abbrev pub is_weekend : Day → Bool
is_weekend d = weekday d == 0 || weekday d == 6

abbrev pub day_cell : ℕ → Day → DayCell
day_cell i d = record {
  date = d;
  is_today = same_day d today;
  is_weekend = is_weekend d;
  is_fri = is_friday d;
  shows_month = i == 0 || (d.date == 1 || weekday d == 1);
}

abbrev pub cells_from : ℕ → ℕ → Day → List DayCell
cells_from zero i d = []
cells_from (suc n) i d = day_cell i d ∷ cells_from n (i + 1) (days_after 1 d)

abbrev pub start_day : ℤ → Day
start_day (pos n) = days_after n today
start_day (negsuc n) = days_before (suc n) today

unfoldable pub days_header : ℤ → ℕ → List DayCell
unfolding is_friday
days_header offset days = cells_from days 0 (start_day offset)

-- The columns with the rule of the Fridays, and those with the weekends' tint.
abbrev pub columns_where : (DayCell → Bool) → ℕ → List DayCell → List ℕ
columns_where p i [] = []
columns_where p i (c ∷ cells) =
    let rest = columns_where p (i + 1) cells in if p c then (i * day_w) ∷ rest else rest

unfoldable pub friday_columns : ℤ → ℕ → List ℕ
unfolding days_header
friday_columns offset days = columns_where (λ c. c.is_fri) 0 (days_header offset days)

unfoldable pub weekend_columns : ℤ → ℕ → List ℕ
unfolding days_header
weekend_columns offset days = columns_where (λ c. c.is_weekend) 0 (days_header offset days)

-- The line of today, if its column is shown: `todayIdx` is how far the start lies back.
unfoldable pub today_line : ℤ → ℕ → Option ℕ
today_line offset days = elim (pos 0 -ℤ offset) [
  | pos i ↦ if ltb i days then some (i * day_w + 28) else none
  | negsuc i ↦ none
]

-- The saved filters, with their names, and the statuses of the popover.
abbrev pub saved_filters : List (String × String × Criteria)
saved_filters =
    (
      "f-1",
      "My active rollouts",
      record {
        products = [];
        types = [];
        statuses = "scheduled" ∷ "active" ∷ [];
        actors = "luc" ∷ [];
      },
    )
    ∷ (
      "f-2",
      "Hotfixes only",
      record {
        products = [];
        types = "tms-ssp-hf" ∷ "operator-hf" ∷ [];
        statuses = [];
        actors = [];
      },
    )
    ∷ (
      "f-3",
      "Frankfurt brokers",
      record {
        products = "operator" ∷ "concentrator" ∷ [];
        types = [];
        statuses = [];
        actors = [];
      },
    )
    ∷ (
      "f-4",
      "Blocked / awaiting",
      record { products = []; types = []; statuses = "blocked" ∷ []; actors = [] },
    )
    ∷ []

abbrev pub status_opts : List (String × String × String)
status_opts =
    ("scheduled", "scheduled", "info")
    ∷ ("active", "in flight", "ok")
    ∷ ("done", "done", "neutral")
    ∷ ("blocked", "blocked", "danger")
    ∷ []

-- ===== src/ListView.antt =====
-- frontend/src/app/features/list/list-view/list-view.component.ts: the table of stages, sorted by
-- date, filtered, counted by status and grouped by day. A date is its number of milliseconds, and
-- the key of a day (`toISOString().slice(0, 10)`) the number of the day that it writes.
pub mod Order
pub mod Content
pub mod Groups
pub mod Counts
pub mod Relative
pub mod Prototype
mod Tests
use text.Mathlib.Text.{◌==◌ as str_eq}
use release_radar.Prelude.{
  ℕ, ◌+◌, ◌*◌, ◌/◌, Bool, true, false, not, ◌&&◌, String, Option, none, some, List, [], ◌∷◌, ◌++◌,
  map, reverse, leb, ◌==◌, filter, if◌then◌else◌,
}
use release_radar.Prelude.Dict.{lookup, insert}

pub record Stage : Type 0 where
  pub env : String
  pub start_at : ℕ
  pub status : String

pub record Rollout : Type 0 where
  pub id : String
  pub product : String
  pub stages : List Stage

pub record Row : Type 0 where
  pub index : ℕ
  pub rollout : Rollout
  pub stage : Stage
  pub date : ℕ

abbrev pub ms_per_day : ℕ
ms_per_day = 86400000

-- `dateKey` of stage.ts.
abbrev pub date_key : ℕ → ℕ
date_key t = t / ms_per_day

-- One row for each stage of each rollout.
abbrev pub stage_rows : Rollout → ℕ → List Stage → List Row
stage_rows r i [] = []
stage_rows r i (st ∷ sts) =
    record { index = i; rollout = r; stage = st; date = st.start_at } ∷ stage_rows r (i + 1) sts

abbrev pub all_rows : List Rollout → List Row
all_rows [] = []
all_rows (r ∷ rs) = stage_rows r 0 r.stages ++ all_rows rs

-- `Array.prototype.sort` by date; it is stable.
unfoldable pub insert_row : Row → List Row → List Row
insert_row r [] = r ∷ []
insert_row r (s ∷ rows) = if leb r.date s.date then r ∷ s ∷ rows else s ∷ insert_row r rows

unfoldable pub sort_rows : List Row → List Row
unfolding insert_row
sort_rows [] = []
sort_rows (r ∷ rows) = insert_row r (sort_rows rows)

unfoldable pub rows : List Rollout → List Row
unfolding sort_rows
rows rollouts = sort_rows (all_rows rollouts)

pub data Window : Type 0 where
  upcoming all past : Window

abbrev pub in_window : Window → Bool → Bool
in_window upcoming future = future
in_window all future = true
in_window past future = not future

pub record Filters : Type 0 where
  pub window : Window
  pub status : String
  pub product : String

-- `filter !== 'all' && value !== filter`, turned round.
abbrev pub admits : String → String → Bool
admits filter value = if str_eq filter "all" then true else str_eq value filter

unfoldable pub is_shown : ℕ → Filters → Row → Bool
is_shown now f r =
    if not (admits f.status r.stage.status)
    then false
    else if not (admits f.product r.rollout.product)
    then false
    else in_window f.window (leb now r.date)

unfoldable pub filtered_rows : ℕ → Filters → List Row → List Row
unfolding is_shown
filtered_rows now f rows = filter (is_shown now f) rows

pub record Group : Type 0 where
  pub key : ℕ
  pub date : ℕ
  pub rows : List Row

-- The loop of `groups`. Both arrays are stacks here, the last element first; `last` is the key of
-- the last group.
abbrev pub is_last : List Group → ℕ → Bool
is_last [] k = false
is_last (g ∷ gs) k = g.key == k

abbrev pub push : Row → List Group → List Group
push r [] = []
push r (g ∷ gs) = record g { rows = r ∷ g.rows } ∷ gs

abbrev pub opened : Row → List Group → List Group
opened r gs =
    if is_last gs (date_key r.date)
    then gs
    else record { key = date_key r.date; date = r.date; rows = [] } ∷ gs

unfoldable pub group_from : List Group → List Row → List Group
group_from gs [] = gs
group_from gs (r ∷ rows) = group_from (push r (opened r gs)) rows

abbrev pub in_order : Group → Group
in_order g = record g { rows = reverse g.rows }

unfoldable pub groups : List Row → List Group
unfolding group_from
groups rows = reverse (map in_order (group_from [] rows))

-- `statusCounts`.
abbrev pub count_of : Option ℕ → ℕ
count_of none = 0
count_of (some n) = n

abbrev pub add_one : String → List (String × ℕ) → List (String × ℕ)
add_one k m = insert k (count_of (lookup k m) + 1) m

unfoldable pub count_rows : List Row → List (String × ℕ) → List (String × ℕ)
count_rows [] m = m
count_rows (r ∷ rows) m = count_rows rows (add_one r.stage.status (add_one "all" m))

unfoldable pub status_counts : List Row → List (String × ℕ)
unfolding count_rows
status_counts rows = count_rows rows (("all", 0) ∷ [])

unfoldable pub count : List Row → String → ℕ
unfolding status_counts
count rows id = count_of (lookup id (status_counts rows))

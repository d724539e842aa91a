-- ===== src/ListView/Prototype.antt =====
-- design/project/list-view.jsx: ListView of the prototype, whose rows have whole days from TODAY, with
-- its groups by day and the counts of its filters.
pub mod Counted
mod Tests
use text.Mathlib.Text.{◌==◌ as str_eq}
use release_radar.Prelude.{
  ℕ, zero, suc, ◌+◌, Bool, true, false, not, String, List, [], ◌∷◌, ◌++◌, map, reverse, length,
  filter, if◌then◌else◌,
}
use release_radar.Prelude.Int.{ℤ, pos, ltb_ℤ, pos_part, neg_part}
use release_radar.Data.{MockRollout, MockStage}
use release_radar.ListView.{Window, upcoming, all, past, Filters, admits}

pub record MockRow : Type 0 where
  pub index : ℕ
  pub rollout : MockRollout
  pub stage : MockStage
  pub offset : ℤ

abbrev pub mock_stage_rows : MockRollout → ℕ → List MockStage → List MockRow
mock_stage_rows r i [] = []
mock_stage_rows r i (st ∷ sts) =
    record { index = i; rollout = r; stage = st; offset = st.offset }
    ∷ mock_stage_rows r (i + 1) sts

abbrev pub all_mock_rows : List MockRollout → List MockRow
all_mock_rows [] = []
all_mock_rows (r ∷ rs) = mock_stage_rows r 0 r.stages ++ all_mock_rows rs

-- `sort` by the offset; it is stable.
unfoldable pub insert_mock : MockRow → List MockRow → List MockRow
insert_mock r [] = r ∷ []
insert_mock r (s ∷ rows) =
    let behind = insert_mock r rows in if ltb_ℤ s.offset r.offset then s ∷ behind else r ∷ s ∷ rows

unfoldable pub sort_mocks : List MockRow → List MockRow
unfolding insert_mock
sort_mocks [] = []
sort_mocks (r ∷ rows) = insert_mock r (sort_mocks rows)

unfoldable pub mock_rows : List MockRollout → List MockRow
unfolding sort_mocks
mock_rows rollouts = sort_mocks (all_mock_rows rollouts)

-- Unlike the client's, the prototype's window begins with the upcoming stages.
abbrev pub first_filters : Filters
first_filters = record { window = upcoming; status = "all"; product = "all" }

abbrev pub is_before_today : MockRow → Bool
is_before_today r = ltb_ℤ r.offset (pos 0)

abbrev pub in_mock_window : Window → Bool → Bool
in_mock_window upcoming before = not before
in_mock_window all before = true
in_mock_window past before = before

unfoldable pub is_listed : Filters → MockRow → Bool
is_listed f r =
    if not (admits f.status r.stage.status)
    then false
    else if not (admits f.product r.rollout.product)
    then false
    else in_mock_window f.window (is_before_today r)

unfoldable pub listed_rows : Filters → List MockRow → List MockRow
unfolding is_listed
listed_rows f rows = filter (is_listed f) rows

-- The groups of a day. The key of a date tells its offset, so that it stands for the key.
pub record MockGroup : Type 0 where
  pub offset : ℤ
  pub rows : List MockRow

abbrev pub same_offset : ℤ → ℤ → Bool
same_offset a b = if ltb_ℤ a b then false else not (ltb_ℤ b a)

abbrev pub put_row : MockRow → List MockGroup → List MockGroup
put_row r [] = record { offset = r.offset; rows = r ∷ [] } ∷ []
put_row r (g ∷ gs) =
    if same_offset g.offset r.offset
    then record g { rows = g.rows ++ r ∷ [] } ∷ gs
    else record { offset = r.offset; rows = r ∷ [] } ∷ g ∷ gs

-- The groups are a stack while the loop runs, the last one first.
abbrev pub put_rows : List MockGroup → List MockRow → List MockGroup
put_rows gs [] = gs
put_rows gs (r ∷ rows) = put_rows (put_row r gs) rows

unfoldable pub mock_groups : List MockRow → List MockGroup
mock_groups rows = reverse (put_rows [] rows)

pub record Counts : Type 0 where
  pub upcoming_count : ℕ
  pub scheduled : ℕ
  pub active : ℕ
  pub blocked : ℕ
  pub done : ℕ

abbrev pub count_status : String → List MockRow → ℕ
count_status status rows = length (filter (λ (r : MockRow). str_eq r.stage.status status) rows)

unfoldable pub counts : List MockRow → Counts
counts rows = record {
  upcoming_count = length (filter (λ (r : MockRow). not (is_before_today r)) rows);
  scheduled = count_status "scheduled" rows;
  active = count_status "active" rows;
  blocked = count_status "blocked" rows;
  done = count_status "done" rows;
}

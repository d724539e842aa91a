-- ===== src/ListView/Order.antt =====
-- list-view.component.ts: the order of the rows, and what the filters leave.
use release_radar.Prelude.{
  ℕ, ◌+◌, ◌≤◌, ◌≡◌, inl, inr, Bool, true, false, not, List, [], ◌∷◌, arith, leb, leb→le, length,
  filter, All, Bool-cases,
}
use release_radar.ListView.{
  Rollout, Row, all_rows, insert_row, sort_rows, rows, Window, upcoming, all, past, Filters,
  is_shown, filtered_rows,
}

-- No row is later than one that follows it.
abbrev pub IsSorted : List Row → Type 0
IsSorted [] = Unit
IsSorted (r ∷ rs) = All (λ s. r.date ≤ s.date) rs × IsSorted rs

All-insert_row :
    (d : ℕ) (r : Row) (rs : List Row)
    → d ≤ r.date
    → All (λ s. d ≤ s.date) rs
    → All (λ s. d ≤ s.date) (insert_row r rs)
unfolding insert_row
All-insert_row d r [] h k = (h, tt)
All-insert_row d r (s ∷ rs) h (k, ks) = ground (arith, All-insert_row d r rs h ks)

All-le_trans :
    (d e : ℕ) (rs : List Row) → d ≤ e → All (λ s. e ≤ s.date) rs → All (λ s. d ≤ s.date) rs
All-le_trans d e [] h k = tt
All-le_trans d e (s ∷ rs) h (k, ks) = (omega arith, All-le_trans d e rs h ks)

insert_row-IsSorted : (r : Row) (rs : List Row) → IsSorted rs → IsSorted (insert_row r rs)
unfolding insert_row
insert_row-IsSorted r [] h = (tt, tt)
insert_row-IsSorted r (s ∷ rs) (h, hs) = elim (Bool-cases (leb r.date s.date)) [
  | inl le ↦
      let d : r.date ≤ s.date = leb→le _ _ le in
      rw le ((d, All-le_trans r.date s.date rs d h), (h, hs))
  | inr gt ↦ rw gt (All-insert_row s.date r rs (ground arith) h, insert_row-IsSorted r rs hs)
]

sort_rows-IsSorted : (rs : List Row) → IsSorted (sort_rows rs)
unfolding sort_rows
sort_rows-IsSorted [] = tt
sort_rows-IsSorted (r ∷ rs) = insert_row-IsSorted r (sort_rows rs) (sort_rows-IsSorted rs)

pub rows-IsSorted : (rollouts : List Rollout) → IsSorted (rows rollouts)
unfolding rows
rows-IsSorted rollouts = sort_rows-IsSorted (all_rows rollouts)

All-filter : (P : Row → Type 0) (p : Row → Bool) (rs : List Row) → All P rs → All P (filter p rs)
All-filter P p [] h = tt
All-filter P p (r ∷ rs) (h, hs) = ground (arith, All-filter P p rs hs)

pub filter-IsSorted : (p : Row → Bool) (rs : List Row) → IsSorted rs → IsSorted (filter p rs)
filter-IsSorted p [] h = tt
filter-IsSorted p (r ∷ rs) (h, hs) =
    ground (arith, All-filter (λ s. r.date ≤ s.date) p rs h, filter-IsSorted p rs hs)

abbrev pub through : Window → Filters → Filters
through w f = record f { window = w }

windows :
    (now : ℕ) (f : Filters) (r : Row)
    → is_shown now (through all f) r ≡ false
    → (is_shown now (through upcoming f) r ≡ false) × (is_shown now (through past f) r ≡ false)
unfolding is_shown
windows now f r h = ground arith

windows_shown :
    (now : ℕ) (f : Filters) (r : Row)
    → is_shown now (through all f) r ≡ true
    → is_shown now (through past f) r ≡ not (is_shown now (through upcoming f) r)
unfolding is_shown
windows_shown now f r h = ground arith

-- Under the same status and product, the upcoming and the past rows share out all rows.
pub length-windows :
    (now : ℕ) (f : Filters) (rs : List Row)
    → length (filtered_rows now (through upcoming f) rs)
        + length (filtered_rows now (through past f) rs)
      ≡ length (filtered_rows now (through all f) rs)
unfolding filtered_rows
length-windows now f [] = omega arith
length-windows now f (r ∷ rs) = elim (Bool-cases (is_shown now (through all f) r)) [
  | inl on ↦ ground (arith, windows_shown now f r on, length-windows now f rs)
  | inr off ↦ ground (arith, windows now f r off, length-windows now f rs)
]

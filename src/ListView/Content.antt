-- ===== src/ListView/Content.antt =====
-- list-view.component.ts: which rows the table has.
use release_radar.Prelude.{
  ℕ, zero, suc, ◌+◌, ◌≤◌, ◌<◌, ◌≡◌, ◌↔◌, ◌⊎◌, refl, sym, ap, ap₂, subst, ◌∙◌, inl, inr, Bool, true,
  false, not, if◌then◌else◌, String, some, List, [], ◌∷◌, map, length, length-append, get_elem?,
  leb, arith, Bool-cases, eq_iff,
}
use release_radar.Prelude.Occurs.{
  some_inj, Occurs, Occurs-head, Occurs-tail, Occurs-uncons, Occurs-nil, Occurs-append_left,
  Occurs-append_right, Occurs-unappend, Occurs-filter_iff,
}
use release_radar.ListView.{
  Rollout, Stage, Row, stage_rows, all_rows, insert_row, sort_rows, rows, Window, upcoming, all,
  past, Filters, is_shown, filtered_rows, in_window, admits,
}
use release_radar.ListView.Order.{IsSorted, rows-IsSorted, filter-IsSorted}

-- Sorting keeps the rows.
insert_row-Occurs :
    (x r : Row) (rs : List Row) → Occurs x (insert_row r rs) ↔ ((r ≡ x) ⊎ Occurs x rs)
unfolding insert_row
insert_row-Occurs x r [] = (
  Occurs-uncons x r [],
  λ h. elim h [ inl e ↦ Occurs-head x r [] e | inr t ↦ absurd (Occurs-nil x t) ],
)
insert_row-Occurs x r (s ∷ rs) =
    let (to, from) = insert_row-Occurs x r rs in
    elim (Bool-cases (leb r.date s.date)) [
      | inl le ↦ rw le (
        Occurs-uncons x r (s ∷ rs),
        λ h. elim h [ inl e ↦ Occurs-head x r (s ∷ rs) e | inr t ↦ Occurs-tail x r (s ∷ rs) t ],
      )
      | inr gt ↦ rw gt (
        λ h. elim (Occurs-uncons x s (insert_row r rs) h) [
          | inl e ↦ inr (Occurs-head x s rs e)
          | inr t ↦ elim (to t) [ inl e ↦ inl e | inr u ↦ inr (Occurs-tail x s rs u) ]
        ],
        λ h. elim h [
          | inl e ↦ Occurs-tail x s (insert_row r rs) (from (inl e))
          | inr t ↦ elim (Occurs-uncons x s rs t) [
            | inl e ↦ Occurs-head x s (insert_row r rs) e
            | inr u ↦ Occurs-tail x s (insert_row r rs) (from (inr u))
          ]
        ],
      )
    ]

sort_rows-Occurs : (x : Row) (rs : List Row) → Occurs x (sort_rows rs) ↔ Occurs x rs
unfolding sort_rows
sort_rows-Occurs x [] = (λ h. h, λ h. h)
sort_rows-Occurs x (r ∷ rs) =
    let (to, from) = sort_rows-Occurs x rs in
    let (out, back) = insert_row-Occurs x r (sort_rows rs) in
    (
      λ h. elim (out h) [ inl e ↦ Occurs-head x r rs e | inr t ↦ Occurs-tail x r rs (to t) ],
      λ h. elim (Occurs-uncons x r rs h) [ inl e ↦ back (inl e) | inr t ↦ back (inr (from t)) ],
    )

-- The row is that of the stage at its index, and has the stage's date.
abbrev pub IsStageOf : Row → List Stage → Type 0
IsStageOf row sts = (get_elem? sts row.index ≡ some row.stage) × (row.date ≡ row.stage.start_at)

abbrev FromIndex : Rollout → ℕ → List Stage → Row → Type 0
FromIndex r i sts row =
    (r ≡ row.rollout)
    × ((k : ℕ) × (i + k ≡ row.index)
        × (get_elem? sts k ≡ some row.stage)
        × (row.date ≡ row.stage.start_at))

stage_rows-to :
    (r : Rollout) (i : ℕ) (sts : List Stage) (row : Row)
    → Occurs row (stage_rows r i sts)
    → FromIndex r i sts row
stage_rows-to r i [] row h = absurd (Occurs-nil row h)
stage_rows-to r i (st ∷ sts) row (zero, e) =
    let p = some_inj e in
    let at : i ≡ row.index = ap (λ (x : Row). x.index) p in
    (
      ap (λ (x : Row). x.rollout) p,
      (
        zero,
        omega arith,
        ap (λ (x : Row). some x.stage) p,
        sym (ap (λ (x : Row). x.date) p) ∙ ap (λ (x : Row). x.stage.start_at) p,
      ),
    )
stage_rows-to r i (st ∷ sts) row (suc k, e) =
    let (same, (j, at, found, date)) = stage_rows-to r (i + 1) sts row (k, e) in
    (same, (suc j, omega arith, found, date))

row_path :
    (a b : Row)
    → a.index ≡ b.index
    → a.rollout ≡ b.rollout
    → a.stage ≡ b.stage
    → a.date ≡ b.date
    → a ≡ b
row_path a b p q r s = λ i. record { index = p i; rollout = q i; stage = r i; date = s i }

stage_rows-from :
    (r : Rollout) (i : ℕ) (sts : List Stage) (row : Row)
    → FromIndex r i sts row
    → Occurs row (stage_rows r i sts)
stage_rows-from r i [] row (same, (k, at, found, date)) = cc
stage_rows-from r i (st ∷ sts) row (same, (zero, at, found, date)) =
    let s = some_inj found in
    Occurs-head row _ (stage_rows r (i + 1) sts)
      (row_path _ row (omega arith) same s (ap (λ (x : Stage). x.start_at) s ∙ sym date))
stage_rows-from r i (st ∷ sts) row (same, (suc k, at, found, date)) =
    Occurs-tail row _ (stage_rows r (i + 1) sts)
      (stage_rows-from r (i + 1) sts row (same, (k, omega arith, found, date)))

-- The row is of one of the rollouts, and of a stage of it.
abbrev pub IsRowOf : List Rollout → Row → Type 0
IsRowOf rollouts row = Occurs row.rollout rollouts × IsStageOf row row.rollout.stages

all_rows-to :
    (rollouts : List Rollout) (row : Row) → Occurs row (all_rows rollouts) → IsRowOf rollouts row
all_rows-to [] row h = absurd (Occurs-nil row h)
all_rows-to (r ∷ rs) row h = elim (Occurs-unappend row (stage_rows r 0 r.stages) (all_rows rs) h) [
  | inl t ↦
      let (same, (k, at, found, date)) = stage_rows-to r 0 r.stages row t in
      let e : k ≡ row.index = omega arith in
      (
        Occurs-head row.rollout r rs same,
        (
          subst (λ n. get_elem? row.rollout.stages n ≡ some row.stage) e
              (subst (λ (q : Rollout). get_elem? q.stages k ≡ some row.stage) same found),
          date,
        ),
      )
  | inr t ↦ let (o, is) = all_rows-to rs row t in (Occurs-tail row.rollout r rs o, is)
]

all_rows-from :
    (rollouts : List Rollout) (row : Row) → IsRowOf rollouts row → Occurs row (all_rows rollouts)
all_rows-from [] row (o, is) = absurd (Occurs-nil row.rollout o)
all_rows-from (r ∷ rs) row (o, (found, date)) = elim (Occurs-uncons row.rollout r rs o) [
  | inl same ↦ Occurs-append_left row (stage_rows r 0 r.stages) (all_rows rs) (
      stage_rows-from r 0 r.stages row (
        same,
        (
          row.index,
          omega arith,
          subst (λ (q : Rollout). get_elem? q.stages row.index ≡ some row.stage) (sym same) found,
          date,
        ),
      ))
  | inr t ↦
      Occurs-append_right row (stage_rows r 0 r.stages) (all_rows rs)
        (all_rows-from rs row (t, (found, date)))
]

abbrev pub InWindow : Window → ℕ → ℕ → Type 0
InWindow upcoming now date = now ≤ date
InWindow all now date = Unit
InWindow past now date = date < now

-- The row has the status, the product and the date that the filters ask for.
abbrev pub Passes : ℕ → Filters → Row → Type 0
Passes now f row =
    ((f.status ≡ "all") ⊎ (row.stage.status ≡ f.status))
    × ((f.product ≡ "all") ⊎ (row.rollout.product ≡ f.product))
    × InWindow f.window now row.date

in_window_iff :
    (w : Window) (now date : ℕ) → (in_window w (leb now date) ≡ true) ↔ InWindow w now date
in_window_iff upcoming now date = ground arith
in_window_iff all now date = (λ _. tt, λ _. refl)
in_window_iff past now date = ground arith

admits_iff : (f v : String) → (admits f v ≡ true) ↔ ((f ≡ "all") ⊎ (v ≡ f))
admits_iff f v = ground (arith, eq_iff f "all", eq_iff v f)

guards_iff :
    (a b c : Bool)
    → ((if not a then false else if not b then false else c) ≡ true)
      ↔ ((a ≡ true) × (b ≡ true) × (c ≡ true))
guards_iff a b c = ground arith

is_shown_iff : (now : ℕ) (f : Filters) (row : Row) → (is_shown now f row ≡ true) ↔ Passes now f row
unfolding is_shown
is_shown_iff now f row =
    let s = admits_iff f.status row.stage.status in
    let p = admits_iff f.product row.rollout.product in
    let w = in_window_iff f.window now row.date in
    let (split, join) =
      guards_iff (admits f.status row.stage.status) (admits f.product row.rollout.product)
        (in_window f.window (leb now row.date)) in
    (λ h. let (a, b, c) = split h in (s.0 a, p.0 b, w.0 c), λ (a, b, c). join (s.1 a, p.1 b, w.1 c))

length-insert_row : (r : Row) (rs : List Row) → length (insert_row r rs) ≡ suc (length rs)
unfolding insert_row
length-insert_row r [] = refl
length-insert_row r (s ∷ rs) = ground (arith, length-insert_row r rs)

length-sort_rows : (rs : List Row) → length (sort_rows rs) ≡ length rs
unfolding sort_rows
length-sort_rows [] = refl
length-sort_rows (r ∷ rs) = omega (arith, length-insert_row r (sort_rows rs), length-sort_rows rs)

length-stage_rows :
    (r : Rollout) (i : ℕ) (sts : List Stage) → length (stage_rows r i sts) ≡ length sts
length-stage_rows r i [] = refl
length-stage_rows r i (st ∷ sts) = ap suc (length-stage_rows r (i + 1) sts)

abbrev pub sum : List ℕ → ℕ
sum [] = 0
sum (n ∷ ns) = n + sum ns

abbrev pub stage_count : List Rollout → ℕ
stage_count rollouts = sum (map (λ (r : Rollout). length r.stages) rollouts)

length-all_rows : (rollouts : List Rollout) → length (all_rows rollouts) ≡ stage_count rollouts
length-all_rows [] = refl
length-all_rows (r ∷ rs) =
    length-append (stage_rows r 0 r.stages) (all_rows rs)
    ∙ ap₂ ◌+◌ (length-stage_rows r 0 r.stages) (length-all_rows rs)

-- The table shows exactly the stages of the rollouts that pass the filters, with their indices and
-- dates, in the order of the dates; and unfiltered it has as many rows as the rollouts have stages.
pub rows_lem :
    (now : ℕ) (f : Filters) (rollouts : List Rollout) (row : Row)
    → IsSorted (filtered_rows now f (rows rollouts))
      × (Occurs row (filtered_rows now f (rows rollouts))
          ↔ (IsRowOf rollouts row × Passes now f row))
      × (length (rows rollouts) ≡ stage_count rollouts)
unfolding rows filtered_rows
rows_lem now f rollouts row =
    let (kept, keeps) = Occurs-filter_iff (is_shown now f) row (sort_rows (all_rows rollouts)) in
    let (to, from) = sort_rows-Occurs row (all_rows rollouts) in
    let (passes, shows) = is_shown_iff now f row in
    (
      filter-IsSorted (is_shown now f) (rows rollouts) (rows-IsSorted rollouts),
      (
        λ h. let (o, p) = kept h in (all_rows-to rollouts row (to o), passes p),
        λ (h, p). keeps (from (all_rows-from rollouts row h), shows p),
      ),
      length-sort_rows (all_rows rollouts) ∙ length-all_rows rollouts,
    )

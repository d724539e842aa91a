-- ===== src/Execute/Rows/Shown.antt =====
-- panels.jsx: how much of a task its row shows.
use release_radar.Prelude.{
  ℕ, ◌+◌, ◌≡◌, refl, Bool, true, false, ◌&&◌, String, Option, none, some, List, [], ◌∷◌, All,
  if◌then◌else◌,
}
use release_radar.Execute.{TaskState, done, failed, Panel, state_of, is_failing}
use release_radar.Execute.Rows.{Row, row_of, row, rows_from, task_rows}

abbrev pub one_if : Bool → ℕ
one_if true = 1
one_if false = 0

abbrev pub one_for {ℓ} : {A : Type ℓ} → Option A → ℕ
one_for none = 0
one_for (some a) = 1

-- How many of the notes of a row are shown: who did it, who failed at it, that it is open, and the
-- input of a reason.
abbrev pub shown : Row → ℕ
shown r = one_for r.log + one_for r.failure + one_if r.is_pending + one_if r.is_asked

abbrev pub IsClear : Row → Type 0
IsClear r = shown r ≡ (if r.is_on && r.is_asked then 2 else 1)

row_of-IsClear :
    (pair : List String) (p : Panel) (i : ℕ) (label : String) (state : Option TaskState)
    (failing : Bool)
    → IsClear (row_of pair p i label state failing)
row_of-IsClear pair p i label none true = refl
row_of-IsClear pair p i label none false = refl
row_of-IsClear pair p i label (some done) true = refl
row_of-IsClear pair p i label (some done) false = refl
row_of-IsClear pair p i label (some (failed reason)) true = refl
row_of-IsClear pair p i label (some (failed reason)) false = refl

row-IsClear :
    (pair : List String) (p : Panel) (i : ℕ) (label : String) → IsClear (row pair p i label)
unfolding row
row-IsClear pair p i label =
    row_of-IsClear pair p i label (state_of i p.task_states) (is_failing i p.failing_task)

rows_from-AreClear :
    (pair : List String) (p : Panel) (i : ℕ) (tasks : List String)
    → All IsClear (rows_from pair p i tasks)
rows_from-AreClear pair p i [] = tt
rows_from-AreClear pair p i (t ∷ tasks) =
    (row-IsClear pair p i t, rows_from-AreClear pair p (i + 1) tasks)

-- A task's row shows one note: who did it, who failed at it, that it is open, or the input of a reason.
-- Only a done task whose reason is asked for shows two.
pub task_rows-AreClear :
    (pair : List String) (p : Panel) (tasks : List String) → All IsClear (task_rows pair p tasks)
unfolding task_rows
task_rows-AreClear pair p tasks = rows_from-AreClear pair p 0 tasks

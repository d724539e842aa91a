-- ===== src/Execute.antt =====
-- design/project/panels.jsx: ExecutePanel, on which the tasks of a rollout are done or failed with a
-- reason. `taskStates` is a map from the task's index, with no entry for an open task. Also the toggle
-- of a lock's products in CreateLockModal.
pub mod States
pub mod Rows
pub mod Dialogs
mod Tests
use text.Mathlib.Text.{◌==◌ as str_eq}
use release_radar.Prelude.{
  ℕ, suc, ◌+◌, ◌*◌, ◌/◌, Bool, true, false, not, ◌&&◌, ◌||◌, String, Option, none, some, List, [],
  ◌∷◌, ◌++◌, ◌==◌, leb, length, filter, map, any, includes, without, if◌then◌else◌,
}
use release_radar.Prelude.Int.{ℤ, ◌≤ℤ◌, ltb_ℤ}
use release_radar.Prelude.Text.{trim, is_empty}
use release_radar.Data.{MockRollout, MockStage, MockLock}

pub data TaskState : Type 0 where
  done : TaskState
  failed : (reason : String) → TaskState

unfoldable pub state_of : ℕ → List (ℕ × TaskState) → Option TaskState
state_of i [] = none
state_of i ((j, s) ∷ states) = if j == i then some s else state_of i states

-- `delete n[i]`
unfoldable pub delete : ℕ → List (ℕ × TaskState) → List (ℕ × TaskState)
delete i states = filter (λ e. not (e.0 == i)) states

-- `n[i] = s`. The keys are indices, which an object keeps in their order.
unfoldable pub assign : ℕ → TaskState → List (ℕ × TaskState) → List (ℕ × TaskState)
assign i s [] = (i, s) ∷ []
assign i s ((j, t) ∷ states) =
    let behind = assign i s states in
    if j == i
    then (j, s) ∷ states
    else if leb i j
    then (i, s) ∷ (j, t) ∷ states
    else (j, t) ∷ behind

pub record Panel : Type 0 where
  pub task_states : List (ℕ × TaskState)
  pub failing_task : Option ℕ
  pub reason_draft : String

abbrev pub checked : List ℕ → List (ℕ × TaskState) → List (ℕ × TaskState)
checked [] states = states
checked (i ∷ is) states = checked is (assign i done states)

unfoldable pub init : MockRollout → Panel
unfolding assign
init r = record { task_states = checked r.checked []; failing_task = none; reason_draft = "" }

abbrev pub is_done : Option TaskState → Bool
is_done none = false
is_done (some done) = true
is_done (some (failed reason)) = false

abbrev pub is_failed : Option TaskState → Bool
is_failed none = false
is_failed (some done) = false
is_failed (some (failed reason)) = true

abbrev pub is_failing : ℕ → Option ℕ → Bool
is_failing i none = false
is_failing i (some j) = j == i

unfoldable pub set_done : ℕ → Panel → Panel
unfolding state_of delete assign
set_done i p =
    let states =
      if is_done (state_of i p.task_states)
      then delete i p.task_states
      else assign i done p.task_states in
    if is_failing i p.failing_task
    then record { task_states = states; failing_task = none; reason_draft = "" }
    else record p { task_states = states }

abbrev pub reason_of : Option TaskState → String
reason_of none = ""
reason_of (some done) = ""
reason_of (some (failed reason)) = reason

unfoldable pub set_failed : ℕ → Panel → Panel
unfolding state_of delete
set_failed i p =
    let existing = state_of i p.task_states in
    if is_failed existing
    then record p {
      task_states = delete i p.task_states;
      failing_task = if is_failing i p.failing_task then none else p.failing_task;
    }
    else record p { failing_task = some i; reason_draft = reason_of existing }

unfoldable pub save_reason : ℕ → Panel → Panel
unfolding assign
save_reason i p =
    let reason = trim p.reason_draft in
    if is_empty reason then p else record {
      task_states = assign i (failed reason) p.task_states;
      failing_task = none;
      reason_draft = "";
    }

unfoldable pub done_count : Panel → ℕ
done_count p = length (filter (λ e. is_done (some e.1)) p.task_states)

unfoldable pub failed_count : Panel → ℕ
failed_count p = length (filter (λ e. is_failed (some e.1)) p.task_states)

unfoldable pub failed_tasks : Panel → List (ℕ × String)
failed_tasks p =
    map (λ e. (e.0, reason_of (some e.1))) (filter (λ e. is_failed (some e.1)) p.task_states)

-- Offsets are days from the same day, so that the dates compare as they do.
abbrev pub at_most : ℤ → ℤ → Bool
at_most a b = not (ltb_ℤ b a)

unfoldable pub blocking_locks : MockRollout → List MockLock → List MockLock
blocking_locks r locks =
    filter
      (λ l.
        (includes l.products "all" || includes l.products r.product)
        && any (λ st. at_most l.start_offset st.offset && at_most st.offset l.end_offset) r.stages)
      locks

-- The products of a lock: a product takes the place of "all".
unfoldable pub toggle_product : List String → String → List String
toggle_product products id =
    if includes products "all"
    then id ∷ []
    else if includes products id
    then without products id
    else products ++ id ∷ []

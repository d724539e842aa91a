-- ===== src/Execute/States.antt =====
-- panels.jsx: what the actions do to the states of the tasks.
use release_radar.Prelude.{
  ℕ, ◌≡◌, refl, ap, false, not, Option, none, some, List, [], ◌∷◌, ◌==◌, arith, if◌then◌else◌,
}
use release_radar.Prelude.Text.{trim, is_empty}
use release_radar.Execute.{
  TaskState, done, failed, state_of, delete, assign, Panel, is_done, is_failing, set_done,
  save_reason,
}

state_of-delete :
    (i k : ℕ) (states : List (ℕ × TaskState))
    → state_of k (delete i states) ≡ (if i == k then none else state_of k states)
unfolding state_of delete
state_of-delete i k [] = ground arith
state_of-delete i k ((j, s) ∷ states) = ground (arith, state_of-delete i k states)

state_of-assign :
    (i k : ℕ) (s : TaskState) (states : List (ℕ × TaskState))
    → state_of k (assign i s states) ≡ (if i == k then some s else state_of k states)
unfolding state_of assign
state_of-assign i k s [] = refl
state_of-assign i k s ((j, t) ∷ states) = ground (arith, state_of-assign i k s states)

-- What a click on the box of a task makes of its state: it is done, unless it was, and then open.
abbrev pub toggled : Option TaskState → Option TaskState
toggled o = if is_done o then none else some done

-- A click on the box of a task makes a done task open and any other one done, closes the input of its
-- own reason, and leaves the other tasks as they were.
pub state_of-set_done :
    (i k : ℕ) (p : Panel)
    → (state_of k (set_done i p).task_states
        ≡ (if i == k then toggled (state_of k p.task_states) else state_of k p.task_states))
      × (is_failing i (set_done i p).failing_task ≡ false)
unfolding set_done
state_of-set_done i k p = (
  ground (
    arith,
    state_of-delete i k p.task_states,
    state_of-assign i k done p.task_states,
    ap (λ n. state_of n p.task_states) {x = i} {y = k},
  ),
  ground arith,
)

-- A reason saved makes the task failed with it, trimmed, whatever it was before, and leaves the other
-- tasks as they were; an empty one changes nothing.
pub state_of-save_reason :
    (i k : ℕ) (p : Panel)
    → state_of k (save_reason i p).task_states ≡ (
        if not (is_empty (trim p.reason_draft))
        then (if i == k then some (failed (trim p.reason_draft)) else state_of k p.task_states)
        else state_of k p.task_states)
unfolding save_reason
state_of-save_reason i k p =
    ground (arith, state_of-assign i k (failed (trim p.reason_draft)) p.task_states)

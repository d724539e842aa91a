-- ===== src/Detail/Actions.antt =====
-- rollout-detail.component.ts: the tasks of a draft, saving, deleting, the answers to the calls, and
-- what can happen on the page.
use release_radar.Prelude.{
  ℕ, zero, suc, Bool, true, false, not, String, Option, none, some, List, [], ◌∷◌, ◌++◌, ltb,
  length, get_elem?, set, erase_idx, if◌then◌else◌,
}
use release_radar.Prelude.Text.{trim, is_empty}
use release_radar.Bus.{bump}
use release_radar.Rollout.{Rollout, RolloutTask, pending}
use release_radar.Detail.{
  Call, update_task, update_rollout, delete_rollout, Detail, call, patch_draft, navigate, Fetched,
  on_fetched, toggle_done, on_fail, edit_reason, save_failure, cancel_fail, enter_edit, cancel_edit,
  set_pair,
}

abbrev pub with_tasks : (List RolloutTask → List RolloutTask) → Rollout → Rollout
with_tasks f d = record d { tasks = f d.tasks }

abbrev pub new_task : String → List RolloutTask → List RolloutTask
new_task v tasks =
    tasks ++ record { index = length tasks; description = v; status = pending; reason = none } ∷ []

abbrev pub add_task_to : String → Option Rollout → Detail → Detail
add_task_to v none s = s
add_task_to v (some d) s = record s {
  draft = some (with_tasks (new_task v) d);
  new_task_draft = "";
}

unfoldable pub add_draft_task : Detail → Detail
add_draft_task s =
    let v = trim s.new_task_draft in if is_empty v then s else add_task_to v s.draft s

abbrev pub describe : String → ℕ → List RolloutTask → List RolloutTask
describe v i [] = []
describe v zero (t ∷ tasks) = record t { description = v } ∷ tasks
describe v (suc i) (t ∷ tasks) = t ∷ describe v i tasks

unfoldable pub edit_draft_task : ℕ → String → Detail → Detail
unfolding patch_draft
edit_draft_task i v s = patch_draft (with_tasks (describe v i)) s

unfoldable pub remove_draft_task : ℕ → Detail → Detail
unfolding patch_draft
remove_draft_task i s = patch_draft (with_tasks (λ tasks. erase_idx tasks i)) s

-- The template moves a task by -1 or 1.
pub data Dir : Type 0 where
  up down : Dir

-- `i + dir`, if it is not negative.
abbrev pub target : ℕ → Dir → Option ℕ
target zero up = none
target (suc i) up = some i
target i down = some (suc i)

-- Without a task at `i`, the swap would write `undefined` into the list, which is nothing here.
abbrev pub exchange :
    ℕ → ℕ → Option RolloutTask → Option RolloutTask → List RolloutTask → Option (List RolloutTask)
exchange i j (some a) (some b) tasks = some (set (set tasks i b) j a)
exchange i j none b tasks = none
exchange i j (some a) none tasks = none

abbrev pub move_to : ℕ → Option ℕ → List RolloutTask → Option (List RolloutTask)
move_to i none tasks = some tasks
move_to i (some j) tasks =
    if not (ltb j (length tasks))
    then some tasks
    else exchange i j (get_elem? tasks i) (get_elem? tasks j) tasks

unfoldable pub move_task : ℕ → Dir → List RolloutTask → Option (List RolloutTask)
move_task i dir tasks = move_to i (target i dir) tasks

abbrev pub moved_in : Rollout → Option (List RolloutTask) → Option Rollout
moved_in d none = none
moved_in d (some tasks) = some (record d { tasks = tasks })

abbrev pub with_moved : Detail → Option Rollout → Option Detail
with_moved s none = none
with_moved s (some d) = some (record s { draft = some d })

unfoldable pub move_draft : ℕ → Dir → Option Rollout → Detail → Option Detail
unfolding move_task
move_draft i dir none s = some s
move_draft i dir (some d) s = with_moved s (moved_in d (move_task i dir d.tasks))

unfoldable pub move_draft_task : ℕ → Dir → Detail → Option Detail
unfolding move_draft
move_draft_task i dir s = move_draft i dir s.draft s

abbrev pub save_draft : Option Rollout → Detail → Detail
save_draft none s = s
save_draft (some d) s = call (update_rollout d.id d) s

unfoldable pub save : Detail → Detail
save s = save_draft s.draft s

unfoldable pub request_delete : Detail → Detail
request_delete s = record s { confirming_delete = true }

unfoldable pub cancel_delete : Detail → Detail
cancel_delete s = record s { confirming_delete = false }

unfoldable pub confirm_delete : String → Detail → Detail
confirm_delete id s = call (delete_rollout id) s

-- The callbacks `next` and `error` of each call.
unfoldable pub on_success : Call → Detail → Detail
unfolding bump
on_success (update_task id seq status reason) s = record s {
  busy = false;
  failing_index = none;
  reason_draft = "";
  bus = bump s.bus;
}
on_success (update_rollout id d) s = record s {
  busy = false;
  editing = false;
  draft = none;
  bus = bump s.bus;
}
on_success (delete_rollout id) s = record s {
  busy = false;
  confirming_delete = false;
  bus = bump s.bus;
  left = true;
}

abbrev pub error_of : Call → String
error_of (update_task id seq status reason) = "Could not update the task — please retry."
error_of (update_rollout id d) = "Could not save changes — please retry."
error_of (delete_rollout id) = "Could not delete the rollout — please retry."

unfoldable pub on_error : Call → Detail → Detail
on_error (delete_rollout id) s = record s {
  busy = false;
  confirming_delete = false;
  action_error = some (error_of (delete_rollout id));
}
on_error c s = record s { busy = false; action_error = some (error_of c) }

pub data Event : Type 0 where
  navigates : Event
  fetches : Fetched → Event
  toggles : String → RolloutTask → Event
  fails : String → RolloutTask → Event
  edits_reason : RolloutTask → Event
  types_reason : String → Event
  saves_failure : String → RolloutTask → Event
  cancels_fail enters_edit cancels_edit : Event
  patches : (Rollout → Rollout) → Event
  sets_pair : String → Event
  types_task : String → Event
  adds_task : Event
  edits_task : ℕ → String → Event
  removes_task : ℕ → Event
  moves_task : ℕ → Dir → Event
  saves requests_delete cancels_delete : Event
  confirms_delete : String → Event
  answers : ℕ → Bool → Event

abbrev pub answer : Bool → Option Call → Detail → Detail
answer ok none s = s
answer true (some c) s = on_success c s
answer false (some c) s = on_error c s

-- The template has buttons for the tasks that there are: an index without a task is no event.
abbrev pub or_same : Detail → Option Detail → Detail
or_same s none = s
or_same s (some t) = t

unfoldable pub step : Event → Detail → Detail
step navigates s = navigate s
step (fetches f) s = on_fetched f s
step (toggles id t) s = toggle_done id t s
step (fails id t) s = on_fail id t s
step (edits_reason t) s = edit_reason t s
step (types_reason v) s = record s { reason_draft = v }
step (saves_failure id t) s = save_failure id t s
step cancels_fail s = cancel_fail s
step enters_edit s = enter_edit s
step cancels_edit s = cancel_edit s
step (patches f) s = patch_draft f s
step (sets_pair v) s = set_pair v s
step (types_task v) s = record s { new_task_draft = v }
step adds_task s = add_draft_task s
step (edits_task i v) s = edit_draft_task i v s
step (removes_task i) s = remove_draft_task i s
step (moves_task i dir) s = or_same s (move_draft_task i dir s)
step saves s = save s
step requests_delete s = request_delete s
step cancels_delete s = cancel_delete s
step (confirms_delete id) s = confirm_delete id s
step (answers i ok) s = answer ok (get_elem? s.calls i) (record s { calls = erase_idx s.calls i })

abbrev pub visit : List Event → Detail → Detail
visit [] s = s
visit (e ∷ es) s = visit es (step e s)

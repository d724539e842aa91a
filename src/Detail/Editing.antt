-- ===== src/Detail/Editing.antt =====
-- rollout-detail.component.ts: edit mode, its draft, and the answers to a save.
use release_radar.Prelude.{
  ℕ, ◌≡◌, ◌∙◌, refl, ap, Bool, true, false, String, Option, none, some, List, [], ◌∷◌, ◌++◌, arith,
  length, get_elem?, erase_idx,
}
use release_radar.Bus.{bump}
use release_radar.Prelude.Text.{trim}
use release_radar.Rollout.{Rollout, RolloutTask}
use release_radar.Detail.{
  Call, update_task, update_rollout, delete_rollout, Detail, is_some, patched, patch_draft, Fetched,
  found, gone, broken, on_fetched, patch, toggle_done, edit_reason, on_fail, save_failure, set_pair,
  enter_edit, navigate, cancel_edit, cancel_fail,
}
use release_radar.Detail.Actions.{
  Dir, move_task, moved_in, with_moved, move_draft, or_same, add_task_to, add_draft_task,
  edit_draft_task, remove_draft_task, move_draft_task, save_draft, save, on_success, on_error,
  Event, navigates, fetches, toggles, fails, edits_reason, types_reason, saves_failure,
  cancels_fail, enters_edit, cancels_edit, patches, sets_pair, types_task, adds_task, edits_task,
  removes_task, moves_task, requests_delete, cancels_delete, confirms_delete, saves, answers,
  answer, step, visit, request_delete, cancel_delete, confirm_delete,
}

-- There is a draft exactly in edit mode.
abbrev pub IsValid : Detail → Type 0
IsValid s = s.editing ≡ is_some s.draft

patched-is_some : (f : Rollout → Rollout) (o : Option Rollout) → is_some (patched f o) ≡ is_some o
patched-is_some f none = refl
patched-is_some f (some d) = refl

patch_draft-IsValid : (f : Rollout → Rollout) (s : Detail) → IsValid s → IsValid (patch_draft f s)
unfolding patch_draft
patch_draft-IsValid f s h = ground (arith, patched-is_some f s.draft)

add_task_to-IsValid :
    (v : String) (o : Option Rollout) (s : Detail)
    → s.editing ≡ is_some o
    → IsValid s
    → IsValid (add_task_to v o s)
add_task_to-IsValid v none s e h = h
add_task_to-IsValid v (some d) s e h = e

add_draft_task-IsValid : (s : Detail) → IsValid s → IsValid (add_draft_task s)
unfolding add_draft_task
add_draft_task-IsValid s h =
    ground (arith, add_task_to-IsValid (trim s.new_task_draft) s.draft s h h)

save-IsValid : (o : Option Rollout) (s : Detail) → IsValid s → IsValid (save_draft o s)
save-IsValid none s h = h
save-IsValid (some d) s h = h

on_fetched-IsValid : (f : Fetched) (s : Detail) → IsValid s → IsValid (on_fetched f s)
unfolding on_fetched
on_fetched-IsValid (found r) s h = h
on_fetched-IsValid gone s h = h
on_fetched-IsValid broken s h = h

answer-IsValid : (ok : Bool) (o : Option Call) (s : Detail) → IsValid s → IsValid (answer ok o s)
unfolding on_success on_error
answer-IsValid true (some (update_task id seq status reason)) s h = h
answer-IsValid true (some (update_rollout id d)) s h = refl
answer-IsValid true (some (delete_rollout id)) s h = h
answer-IsValid false (some (update_task id seq status reason)) s h = h
answer-IsValid false (some (update_rollout id d)) s h = h
answer-IsValid false (some (delete_rollout id)) s h = h
answer-IsValid ok none s h = h

tasks_keep :
    (id : String) (t : RolloutTask) (s : Detail)
    → IsValid s
    → IsValid (toggle_done id t s) × IsValid (on_fail id t s) × IsValid (save_failure id t s)
unfolding toggle_done on_fail save_failure patch edit_reason
tasks_keep id t s h = (ground arith, ground arith, ground arith)

enter_edit-IsValid : (s : Detail) → IsValid s → IsValid (enter_edit s)
unfolding enter_edit
enter_edit-IsValid s h = ground arith

moved-IsValid :
    (s : Detail) (d : Rollout) (o : Option (List RolloutTask))
    → s.draft ≡ some d
    → IsValid s
    → IsValid (or_same s (with_moved s (moved_in d o)))
moved-IsValid s d none e h = h
moved-IsValid s d (some tasks) e h = h ∙ ap is_some e

move_draft-IsValid :
    (i : ℕ) (dir : Dir) (s : Detail) (o : Option Rollout)
    → s.draft ≡ o
    → IsValid s
    → IsValid (or_same s (move_draft i dir o s))
unfolding move_draft
move_draft-IsValid i dir s none e h = h
move_draft-IsValid i dir s (some d) e h = moved-IsValid s d (move_task i dir d.tasks) e h

step-IsValid : (e : Event) (s : Detail) → IsValid s → IsValid (step e s)
unfolding step navigate edit_reason cancel_fail cancel_edit set_pair edit_draft_task
    remove_draft_task move_draft_task save request_delete cancel_delete confirm_delete
step-IsValid navigates s h = h
step-IsValid (fetches f) s h = on_fetched-IsValid f s h
step-IsValid (toggles id t) s h = (tasks_keep id t s h).0
step-IsValid (fails id t) s h = (tasks_keep id t s h).1
step-IsValid (edits_reason t) s h = h
step-IsValid (types_reason v) s h = h
step-IsValid (saves_failure id t) s h = (tasks_keep id t s h).2
step-IsValid cancels_fail s h = h
step-IsValid enters_edit s h = enter_edit-IsValid s h
step-IsValid cancels_edit s h = refl
step-IsValid (patches f) s h = patch_draft-IsValid f s h
step-IsValid (sets_pair v) s h = patch_draft-IsValid _ s h
step-IsValid (types_task v) s h = h
step-IsValid adds_task s h = add_draft_task-IsValid s h
step-IsValid (edits_task i v) s h = patch_draft-IsValid _ s h
step-IsValid (removes_task i) s h = patch_draft-IsValid _ s h
step-IsValid (moves_task i dir) s h = move_draft-IsValid i dir s s.draft refl h
step-IsValid saves s h = save-IsValid s.draft s h
step-IsValid requests_delete s h = h
step-IsValid cancels_delete s h = h
step-IsValid (confirms_delete id) s h = h
step-IsValid (answers i ok) s h =
    answer-IsValid ok (get_elem? s.calls i) (record s { calls = erase_idx s.calls i }) h

-- Whatever is done on the page, and whenever the calls are answered, there is a draft exactly in
-- edit mode, if it was so before.
pub visit-IsValid : (es : List Event) (s : Detail) → IsValid s → IsValid (visit es s)
visit-IsValid [] s h = h
visit-IsValid (e ∷ es) s h = visit-IsValid es (step e s) (step-IsValid e s h)

last_call :
    (c : Call) (calls : List Call)
    → (get_elem? (calls ++ c ∷ []) (length calls) ≡ some c)
      × (erase_idx (calls ++ c ∷ []) (length calls) ≡ calls)
last_call c [] = (refl, refl)
last_call c (d ∷ calls) = ((last_call c calls).0, ap (d ∷◌) (last_call c calls).1)

-- A refused save of a draft leaves everything as it was, the draft included, with an error; an
-- accepted one closes the draft and makes the views load again.
pub save_answered :
    (d : Rollout) (s : Detail)
    → s.draft ≡ some d
    → (step (answers (length s.calls) false) (save s)
        ≡ record s { busy = false; action_error = some "Could not save changes — please retry." })
      × (step (answers (length s.calls) true) (save s) ≡ record s {
        busy = false;
        action_error = none;
        editing = false;
        draft = none;
        bus = bump s.bus;
      })
unfolding step save on_success on_error
save_answered d s h =
    let (found_it, erased) = last_call (update_rollout d.id d) s.calls in
    (rw (h, found_it, erased) refl, rw (h, found_it, erased) refl)

-- Another rollout's page, once it is loaded, still has the draft of the one before and its open
-- reason: saved there, the draft goes to the rollout before.
pub draft_survives :
    (d q : Rollout) (s : Detail)
    → s.draft ≡ some d
    → let there : Detail = visit (navigates ∷ fetches (found q) ∷ []) s in
      (there.rollout ≡ some q)
      × (there.draft ≡ some d)
      × (there.editing ≡ s.editing)
      × (there.failing_index ≡ s.failing_index)
      × (there.reason_draft ≡ s.reason_draft)
      × ((step saves there).calls ≡ s.calls ++ update_rollout d.id d ∷ [])
unfolding step navigate on_fetched save
draft_survives d q s h = (refl, h, refl, refl, refl, rw h refl)

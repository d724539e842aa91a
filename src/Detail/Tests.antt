-- ===== src/Detail/Tests.antt =====
-- The page of a rollout, and the theorems there.
use release_radar.Prelude.{
  ℕ, ◌*◌, ◌≡◌, ◌↔◌, refl, true, false, none, some, String, List, [], ◌∷◌, ◌++◌, arith, map,
}
use release_radar.Prelude.Text.{trim, trim_start, trim_end, split_commas}
use release_radar.Bus.{new_bus, bump}
use release_radar.Rollout.{Rollout, RolloutStage, RolloutTask, pending, done, Lock, manual}
use release_radar.Detail.{
  overlaps, blocks, blocking_locks, completion, failed_count, Detail, new_detail, on_fetched, found,
  navigate, deleted, gone, enter_edit, set_pair, patch_draft, pair_text, parse_pair, update_rollout,
  toggle_done, patch,
}
use release_radar.Detail.Actions.{
  up, move_task, move_draft, move_draft_task, add_draft_task, save, step, visit, navigates, fetches,
  enters_edit, sets_pair, types_task, adds_task, moves_task, saves, answers, on_success, on_error,
}
use release_radar.Detail.Locks.{Meets, Covers, Some, blocks_iff}
use release_radar.Detail.Tasks.{IsUndone, move_task_lem}
use release_radar.Detail.Editing.{IsValid, visit-IsValid, save_answered, draft_survives}

page_code : Unit {0}
unfolding overlaps blocks blocking_locks completion failed_count on_fetched navigate deleted
    enter_edit set_pair patch_draft pair_text parse_pair trim trim_start trim_end split_commas
    toggle_done patch move_task move_draft move_draft_task add_draft_task save step on_success
    on_error bump
page_code = tt

abbrev hour : ℕ
hour = 3600000

abbrev stage : RolloutStage
stage = record {
  env = "prod1";
  start_at = 10 * hour;
  duration_ns = 2 * 3600000000000;
  status = "scheduled";
}

abbrev task : ℕ → String → RolloutTask
task i v = record { index = i; description = v; status = pending; reason = none }

abbrev tasks : List RolloutTask
tasks = task 0 "Announce" ∷ task 1 "Deploy" ∷ task 2 "Check" ∷ []

abbrev rollout : Rollout
rollout = record {
  id = "r-101";
  product = "operator";
  type_id = "operator-feature";
  title = "operator 24.7";
  desc_ext = "";
  desc_int = "";
  risks = "";
  stages = stage ∷ [];
  pair = none;
  tasks = tasks;
}

abbrev lock_between : ℕ → ℕ → Lock
lock_between start end = record {
  id = "l-2";
  title = "Master Branch Bug";
  description = "";
  contact = "";
  start_at = start;
  end_at = end;
  products = "microservices" ∷ "operator" ∷ [];
  kind = manual;
}

blocked :
    (map
      (λ (l : Lock). l.end_at)
      (blocking_locks
        (some rollout)
        (lock_between hour (10 * hour) ∷ lock_between (11 * hour) (30 * hour) ∷ [])))
    ≡ 30 * hour ∷ []
unfolding page_code
blocked = refl

abbrev opened : Detail
opened = visit (fetches (found rollout) ∷ enters_edit ∷ []) (new_detail true new_bus)

-- A pair is typed, a task is added and moved up, and the draft is saved.
session :
    map {B = ℕ × String}
      (λ (t : RolloutTask). (t.index, t.description))
      (elim (visit
        (sets_pair "LM,  SK ," ∷ types_task " Tell " ∷ adds_task ∷ moves_task 3 up ∷ [])
        opened).draft [ none ↦ [] | some d ↦ d.tasks ])
    ≡ (0, "Announce") ∷ (1, "Deploy") ∷ (3, "Tell") ∷ (2, "Check") ∷ []
unfolding page_code
session = refl

pairs : pair_text (visit (sets_pair "LM,  SK ," ∷ []) opened) ≡ "LM, SK"
unfolding page_code
pairs = refl

gone_page : deleted (visit (fetches gone ∷ []) opened) ≡ true
unfolding page_code
gone_page = refl

progress : completion (record (task 0 "a") { status = done } ∷ task 1 "b" ∷ task 2 "c" ∷ []) ≡ 33
unfolding page_code
progress = refl

blocks_iff_example : (blocks rollout (lock_between (11 * hour) (30 * hour)) ≡ true) ↔ (
    Covers (lock_between (11 * hour) (30 * hour)) rollout
    × Some (Meets (lock_between (11 * hour) (30 * hour))) (stage ∷ []))
blocks_iff_example =
    blocks_iff rollout (lock_between (11 * hour) (30 * hour)) (omega arith) (omega arith, tt)

move_task_lem_example : IsUndone 2 1 up tasks
move_task_lem_example = move_task_lem 2 1 up tasks (omega arith) (omega arith) refl

opened-IsValid : IsValid opened
unfolding page_code
opened-IsValid = refl

visit-IsValid_example : IsValid (visit (saves ∷ answers 0 true ∷ []) opened)
visit-IsValid_example = visit-IsValid (saves ∷ answers 0 true ∷ []) opened opened-IsValid

save_answered_example :
    (step (answers 0 false) (save opened) ≡ record opened {
      busy = false;
      action_error = some "Could not save changes — please retry.";
    })
    × (step (answers 0 true) (save opened) ≡ record opened {
      busy = false;
      action_error = none;
      editing = false;
      draft = none;
      bus = bump opened.bus;
    })
unfolding page_code
save_answered_example = save_answered rollout opened refl

abbrev other : Rollout
other = record rollout { id = "r-102" }

draft_survives_example :
    let there : Detail = visit (navigates ∷ fetches (found other) ∷ []) opened in
    (there.rollout ≡ some other)
    × (there.draft ≡ some rollout)
    × (there.editing ≡ opened.editing)
    × (there.failing_index ≡ opened.failing_index)
    × (there.reason_draft ≡ opened.reason_draft)
    × ((step saves there).calls ≡ opened.calls ++ update_rollout "r-101" rollout ∷ [])
unfolding page_code
draft_survives_example = draft_survives rollout other opened refl

-- ===== src/Detail.antt =====
-- frontend/src/app/features/rollout-detail/rollout-detail.component.ts: the page of one rollout, which
-- shows its locks and tasks, executes tasks, and edits and deletes the rollout. The calls of the API
-- are kept until they are answered. A date is its number of milliseconds.
pub mod Actions
pub mod Locks
pub mod Tasks
pub mod Editing
pub mod View
mod Tests
use Prim.Native.String
use text.Mathlib.Text.{◌==◌ as str_eq}
use release_radar.Prelude.{
  ℕ, zero, suc, ◌+◌, ◌*◌, ◌/◌, ◌<◌, Bool, true, false, not, ◌&&◌, ◌||◌, String, Option, none, some,
  List, [], ◌∷◌, ◌++◌, map, ltb, ◌==◌, length, get_elem?, set, filter, any, includes, erase_idx,
  if◌then◌else◌,
}
use release_radar.Prelude.Text.{trim, split_commas, join, is_empty}
use release_radar.Bus.{Bus, bump}
use release_radar.Stage.{ns_per_hour, ms_per_hour}
use release_radar.Rollout.{
  Rollout, RolloutType, RolloutStage, RolloutTask, TaskStatus, pending, done, failed, Lock,
}

-- The window of a stage and that of a lock overlap. Its duration is in nanoseconds.
abbrev pub stage_end : RolloutStage → ℕ
stage_end st = st.start_at + st.duration_ns * ms_per_hour / ns_per_hour

unfoldable pub overlaps : Lock → RolloutStage → Bool
overlaps l st = ltb st.start_at l.end_at && ltb l.start_at (stage_end st)

unfoldable pub blocks : Rollout → Lock → Bool
unfolding overlaps
blocks r l =
    if not (includes l.products "all" || includes l.products r.product)
    then false
    else any (overlaps l) r.stages

unfoldable pub blocking_locks : Option Rollout → List Lock → List Lock
unfolding blocks
blocking_locks none locks = []
blocking_locks (some r) locks = filter (blocks r) locks

abbrev pub is_done : RolloutTask → Bool
is_done t = elim t.status [ pending ↦ false | done ↦ true | failed ↦ false ]

abbrev pub is_failed : RolloutTask → Bool
is_failed t = elim t.status [ pending ↦ false | done ↦ false | failed ↦ true ]

-- `Math.round((done / all) * 100)`, without the errors of floating point.
abbrev pub percent : ℕ → ℕ → ℕ
percent n zero = 0
percent n (suc m) = (200 * n + suc m) / (2 * suc m)

unfoldable pub completion : List RolloutTask → ℕ
completion tasks = percent (length (filter is_done tasks)) (length tasks)

unfoldable pub failed_count : List RolloutTask → ℕ
failed_count tasks = length (filter is_failed tasks)

pub data Call : Type 0 where
  update_task : (id : String) → (seq : ℕ) → TaskStatus → (reason : String) → Call
  update_rollout : (id : String) → Rollout → Call
  delete_rollout : (id : String) → Call

-- `calls` are the calls that have no answer yet, in their order.
pub record Detail : Type 0 where
  pub can_edit : Bool
  pub rollout : Option Rollout
  pub had_rollout : Bool
  pub busy : Bool
  pub action_error : Option String
  pub failing_index : Option ℕ
  pub reason_draft : String
  pub editing : Bool
  pub draft : Option Rollout
  pub new_task_draft : String
  pub confirming_delete : Bool
  pub calls : List Call
  pub bus : Bus
  pub left : Bool

abbrev pub new_detail : Bool → Bus → Detail
new_detail can_edit bus = record {
  can_edit = can_edit;
  rollout = none;
  had_rollout = false;
  busy = false;
  action_error = none;
  failing_index = none;
  reason_draft = "";
  editing = false;
  draft = none;
  new_task_draft = "";
  confirming_delete = false;
  calls = [];
  bus = bus;
  left = false;
}

abbrev pub is_some {ℓ} : {A : Type ℓ} → Option A → Bool
is_some none = false
is_some (some a) = true

-- The route's id changes: what is reset, and what stays.
unfoldable pub navigate : Detail → Detail
navigate s = record s { had_rollout = false; action_error = none }

-- An answer to the fetch: the rollout, a 404, or another failure, which emits nothing.
pub data Fetched : Type 0 where
  found : Rollout → Fetched
  gone : Fetched
  broken : Fetched

unfoldable pub on_fetched : Fetched → Detail → Detail
on_fetched (found r) s = record s { rollout = some r; had_rollout = true }
on_fetched gone s = record s { rollout = none }
on_fetched broken s = s

unfoldable pub deleted : Detail → Bool
deleted s = s.had_rollout && not (is_some s.rollout)

abbrev pub call : Call → Detail → Detail
call c s = record s { busy = true; action_error = none; calls = s.calls ++ c ∷ [] }

unfoldable pub patch : String → ℕ → TaskStatus → String → Detail → Detail
patch id seq status reason s = call (update_task id seq status reason) s

abbrev pub toggled : TaskStatus → TaskStatus
toggled done = pending
toggled pending = done
toggled failed = done

unfoldable pub toggle_done : String → RolloutTask → Detail → Detail
unfolding patch
toggle_done id t s = if not s.can_edit then s else patch id t.index (toggled t.status) "" s

abbrev pub reason_of : RolloutTask → String
reason_of t = elim t.reason [ none ↦ "" | some reason ↦ reason ]

unfoldable pub edit_reason : RolloutTask → Detail → Detail
edit_reason t s = record s { failing_index = some t.index; reason_draft = reason_of t }

unfoldable pub on_fail : String → RolloutTask → Detail → Detail
unfolding patch edit_reason
on_fail id t s =
    if not s.can_edit
    then s
    else if is_failed t
    then patch id t.index pending "" s
    else edit_reason t s

unfoldable pub save_failure : String → RolloutTask → Detail → Detail
unfolding patch
save_failure id t s =
    let reason = trim s.reason_draft in
    if is_empty reason then s else patch id t.index failed reason s

unfoldable pub cancel_fail : Detail → Detail
cancel_fail s = record s { failing_index = none; reason_draft = "" }

-- Edit mode.
unfoldable pub enter_edit : Detail → Detail
enter_edit s = if is_some s.rollout then record s { draft = s.rollout; editing = true } else s

unfoldable pub cancel_edit : Detail → Detail
cancel_edit s = record s { editing = false; draft = none; new_task_draft = "" }

abbrev pub patched : (Rollout → Rollout) → Option Rollout → Option Rollout
patched f none = none
patched f (some d) = some (f d)

unfoldable pub patch_draft : (Rollout → Rollout) → Detail → Detail
patch_draft f s = record s { draft = patched f s.draft }

abbrev pub names_of : Option Rollout → List String
names_of none = []
names_of (some d) = elim d.pair [ none ↦ [] | some names ↦ names ]

unfoldable pub pair_text : Detail → String
pair_text s = join ", " (names_of s.draft)

unfoldable pub parse_pair : String → List String
parse_pair v = filter (λ name. not (is_empty name)) (map trim (split_commas v))

unfoldable pub set_pair : String → Detail → Detail
unfolding patch_draft
set_pair v s = patch_draft (λ d. record d { pair = some (parse_pair v) }) s

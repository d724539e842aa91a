-- ===== src/MasterView.antt =====
-- frontend/src/app/features/master-data/master-data-view/master-data-view.component.ts: the page that
-- edits products and rollout types. A draft is a copy, so that the source's deep clone is the value
-- itself; the calls of the API are kept, newest first, and their answers are steps of their own.
pub mod Loads
pub mod Plan
pub mod Sessions
mod Tests
use text.Mathlib.Text.{◌==◌ as str_eq}
use release_radar.Prelude.{
  ℕ, zero, suc, ◌+◌, Bool, true, false, not, ◌||◌, String, Option, none, some, List, [], ◌∷◌, ◌++◌,
  map, filter, length, get_elem?, set, erase_idx, includes, without, ltb, if◌then◌else◌,
}
use release_radar.Prelude.Text.{trim, is_empty}
use release_radar.Bus.{Bus, bump}
use release_radar.Rollout.{Product, RolloutType, CascadeStage}
use release_radar.Stage.{stages}

pub data Call : Type 0 where
  upsert_product : Product → Call
  upsert_rollout_type : RolloutType → Call

pub data Tab : Type 0 where
  product_tab type_tab : Tab

pub record View : Type 0 where
  pub tab : Tab
  pub products : List Product
  pub types : List RolloutType
  pub product_draft : Option Product
  pub type_draft : Option RolloutType
  pub broker_draft : String
  pub rule_draft : String
  pub task_draft : String
  pub saving : Bool
  pub error : Option String
  pub calls : List Call
  pub bus : Bus

abbrev pub new_view : Bus → View
new_view bus = record {
  tab = product_tab;
  products = [];
  types = [];
  product_draft = none;
  type_draft = none;
  broker_draft = "";
  rule_draft = "";
  task_draft = "";
  saving = false;
  error = none;
  calls = [];
  bus = bus;
}

-- The effects: the first item is selected where there is no draft.
abbrev pub or_first {ℓ} : {A : Type ℓ} → Option A → List A → Option A
or_first (some d) xs = some d
or_first none [] = none
or_first none (x ∷ xs) = some x

-- The data arrive, at the start and after each tick of the bus; a failed request gives no items.
pub record Data : Type 0 where
  pub products : List Product
  pub types : List RolloutType

unfoldable pub on_data : Data → View → View
on_data d v = record v {
  products = d.products;
  types = d.types;
  product_draft = or_first v.product_draft d.products;
  type_draft = or_first v.type_draft d.types;
}

unfoldable pub select_product : Product → View → View
select_product p v = record v { error = none; product_draft = some p }

unfoldable pub new_product : View → View
new_product v = record v {
  error = none;
  product_draft = some (record { id = ""; name = "new product"; owner = ""; brokers = [] });
}

unfoldable pub select_type : RolloutType → View → View
select_type t v = record v { error = none; type_draft = some t }

unfoldable pub new_type : View → View
new_type v = record v {
  error = none;
  type_draft = some (record {
    id = "";
    name = "new rollout type";
    short = "new";
    tone = "neutral";
    cascade_plan = record { stage = "non-prod"; delay_hours = 0 } ∷ [];
    announce = "";
    rules = [];
    tasks = [];
  });
}

abbrev pub patched {ℓ} : {A : Type ℓ} → (A → A) → Option A → Option A
patched f none = none
patched f (some d) = some (f d)

unfoldable pub patch_product : (Product → Product) → View → View
patch_product f v = record v { product_draft = patched f v.product_draft }

abbrev pub has_draft {ℓ} : {A : Type ℓ} → Option A → Bool
has_draft none = false
has_draft (some d) = true

unfoldable pub add_broker : View → View
unfolding patch_product
add_broker v =
    let b = trim v.broker_draft in
    if is_empty b || not (has_draft v.product_draft)
    then v
    else record (patch_product (λ d. record d { brokers = d.brokers ++ b ∷ [] }) v) {
      broker_draft = "";
    }

unfoldable pub remove_broker : String → View → View
unfolding patch_product
remove_broker b v = patch_product (λ d. record d { brokers = without d.brokers b }) v

abbrev pub save : Call → String → View → View
save c name v =
    if is_empty (trim name)
    then v
    else record v { saving = true; error = none; calls = c ∷ v.calls }

abbrev pub save_product_of : Option Product → View → View
save_product_of none v = v
save_product_of (some d) v = save (upsert_product d) d.name v

unfoldable pub save_product : View → View
save_product v = save_product_of v.product_draft v

unfoldable pub on_product_saved : Product → View → View
unfolding bump
on_product_saved saved v = record v { saving = false; product_draft = some saved; bus = bump v.bus }

-- The error of either call.
unfoldable pub on_save_failed : String → View → View
on_save_failed message v = record v { saving = false; error = some message }

unfoldable pub patch_type : (RolloutType → RolloutType) → View → View
patch_type f v = record v { type_draft = patched f v.type_draft }

unfoldable pub add_rule : View → View
unfolding patch_type
add_rule v =
    let r = trim v.rule_draft in
    if is_empty r || not (has_draft v.type_draft)
    then v
    else record (patch_type (λ d. record d { rules = d.rules ++ r ∷ [] }) v) { rule_draft = "" }

unfoldable pub remove_rule : ℕ → View → View
unfolding patch_type
remove_rule i v = patch_type (λ d. record d { rules = erase_idx d.rules i }) v

unfoldable pub add_task : View → View
unfolding patch_type
add_task v =
    let t = trim v.task_draft in
    if is_empty t || not (has_draft v.type_draft)
    then v
    else record (patch_type (λ d. record d { tasks = d.tasks ++ t ∷ [] }) v) { task_draft = "" }

-- The index is that of a task shown.
unfoldable pub edit_task : ℕ → String → View → View
unfolding patch_type
edit_task i text v = patch_type (λ d. record d { tasks = set d.tasks i text }) v

unfoldable pub remove_task : ℕ → View → View
unfolding patch_type
remove_task i v = patch_type (λ d. record d { tasks = erase_idx d.tasks i }) v

-- `dir` is -1 or 1.
pub data Dir : Type 0 where
  up down : Dir

abbrev pub target : ℕ → Dir → Option ℕ
target zero up = none
target (suc i) up = some i
target i down = some (suc i)

-- Without a task at `i`, the swap would write `undefined` into the list, which is nothing here.
abbrev pub exchange : ℕ → ℕ → Option String → Option String → List String → Option (List String)
exchange i j (some a) (some b) tasks = some (set (set tasks i b) j a)
exchange i j none b tasks = none
exchange i j (some a) none tasks = none

abbrev pub move_to : ℕ → Option ℕ → List String → Option (List String)
move_to i none tasks = some tasks
move_to i (some j) tasks =
    if not (ltb j (length tasks))
    then some tasks
    else exchange i j (get_elem? tasks i) (get_elem? tasks j) tasks

unfoldable pub put_tasks : View → Option (List String) → Option View
unfolding patch_type
put_tasks v none = none
put_tasks v (some tasks) = some (patch_type (λ d. record d { tasks = tasks }) v)

unfoldable pub move_in : ℕ → Dir → Option RolloutType → View → Option View
unfolding put_tasks
move_in i dir none v = some v
move_in i dir (some d) v = put_tasks v (move_to i (target i dir) d.tasks)

unfoldable pub move_task : ℕ → Dir → View → Option View
unfolding move_in
move_task i dir v = move_in i dir v.type_draft v

abbrev pub next_delay : ℕ → List CascadeStage → ℕ
next_delay d [] = d
next_delay d (p ∷ plan) = next_delay (p.delay_hours + 168) plan

unfoldable pub add_stage : String → View → View
unfolding patch_type
add_stage key v =
    patch_type
      (λ d. record d {
        cascade_plan =
            d.cascade_plan
            ++ record { stage = key; delay_hours = next_delay 0 d.cascade_plan } ∷ [];
      })
      v

abbrev pub patch_at : ℕ → (CascadeStage → CascadeStage) → List CascadeStage → List CascadeStage
patch_at i f [] = []
patch_at zero f (p ∷ plan) = f p ∷ plan
patch_at (suc i) f (p ∷ plan) = p ∷ patch_at i f plan

unfoldable pub patch_stage : ℕ → (CascadeStage → CascadeStage) → View → View
unfolding patch_type
patch_stage i f v = patch_type (λ d. record d { cascade_plan = patch_at i f d.cascade_plan }) v

unfoldable pub remove_stage : ℕ → View → View
unfolding patch_type
remove_stage i v = patch_type (λ d. record d { cascade_plan = erase_idx d.cascade_plan i }) v

abbrev pub plan_keys : Option RolloutType → List String
plan_keys none = []
plan_keys (some d) = map (λ p. p.stage) d.cascade_plan

unfoldable pub used_stage_keys : View → List String
used_stage_keys v = plan_keys v.type_draft

abbrev pub stage_keys : List String
stage_keys = map (λ e. e.0) stages

unfoldable pub unused_stage_keys : View → List String
unfolding used_stage_keys
unused_stage_keys v = filter (λ k. not (includes (used_stage_keys v) k)) stage_keys

abbrev pub save_type_of : Option RolloutType → View → View
save_type_of none v = v
save_type_of (some d) v = save (upsert_rollout_type d) d.name v

unfoldable pub save_type : View → View
save_type v = save_type_of v.type_draft v

unfoldable pub on_type_saved : RolloutType → View → View
unfolding bump
on_type_saved saved v = record v { saving = false; type_draft = some saved; bus = bump v.bus }

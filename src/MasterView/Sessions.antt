-- ===== src/MasterView/Sessions.antt =====
-- master-data-view.component.ts: what holds over every session of the page.
pub mod Valid
use release_radar.Prelude.{
  ℕ, ◌≡◌, refl, Bool, true, false, not, String, Option, none, some, List, [], ◌∷◌, ◌++◌, erase_idx,
  without, All, Bool-cases, inl, inr, arith, if◌then◌else◌,
}
use text.Mathlib.Text.{◌==◌ as str_eq}
use release_radar.Prelude.Text.{trim, is_empty}
use release_radar.Rollout.{Product, RolloutType, CascadeStage}
use release_radar.MasterView.{
  View, Tab, Data, Dir, Call, upsert_product, upsert_rollout_type, on_data, select_product,
  new_product, select_type, new_type, patch_product, add_broker, remove_broker, save, save_product,
  on_product_saved, on_save_failed, patch_type, add_rule, remove_rule, add_task, edit_task,
  remove_task, move_task, add_stage, patch_stage, remove_stage, save_type, on_type_saved, or_first,
  has_draft,
}

-- All that the page does.
pub data Step : Type 0 where
  opened : Tab → Step
  loaded : Data → Step
  selected_product : Product → Step
  selected_type : RolloutType → Step
  started_product started_type : Step
  named_product named_type owned shortened toned : String → Step
  typed_broker typed_rule typed_task : String → Step
  added_broker added_rule added_task : Step
  removed_broker : String → Step
  removed_rule removed_task removed_stage : ℕ → Step
  edited_task : ℕ → String → Step
  moved_task : ℕ → Dir → Step
  added_stage : String → Step
  staged : ℕ → String → Step
  delayed : ℕ → ℕ → Step
  saved_product saved_type : Step
  product_answered : Product → Step
  type_answered : RolloutType → Step
  failed : String → Step

-- The template has buttons for the tasks that there are: an index without a task is no step.
abbrev pub or_same : View → Option View → View
or_same v none = v
or_same v (some w) = w

unfoldable pub step : Step → View → View
unfolding on_data select_product new_product select_type new_type patch_product add_broker
    remove_broker save_product on_product_saved on_save_failed patch_type add_rule remove_rule
    add_task edit_task remove_task move_task add_stage patch_stage remove_stage save_type
    on_type_saved
step (opened t) v = record v { tab = t }
step (loaded d) v = on_data d v
step (selected_product p) v = select_product p v
step (selected_type t) v = select_type t v
step started_product v = new_product v
step started_type v = new_type v
step (named_product s) v = patch_product (λ d. record d { name = s }) v
step (named_type s) v = patch_type (λ d. record d { name = s }) v
step (owned s) v = patch_product (λ d. record d { owner = s }) v
step (shortened s) v = patch_type (λ d. record d { short = s }) v
step (toned s) v = patch_type (λ d. record d { tone = s }) v
step (typed_broker s) v = record v { broker_draft = s }
step (typed_rule s) v = record v { rule_draft = s }
step (typed_task s) v = record v { task_draft = s }
step added_broker v = add_broker v
step added_rule v = add_rule v
step added_task v = add_task v
step (removed_broker s) v = remove_broker s v
step (removed_rule i) v = remove_rule i v
step (removed_task i) v = remove_task i v
step (removed_stage i) v = remove_stage i v
step (edited_task i s) v = edit_task i s v
step (moved_task i dir) v = or_same v (move_task i dir v)
step (added_stage s) v = add_stage s v
step (staged i s) v = patch_stage i (λ p. record p { stage = s }) v
step (delayed i n) v = patch_stage i (λ p. record p { delay_hours = n }) v
step saved_product v = save_product v
step saved_type v = save_type v
step (product_answered p) v = on_product_saved p v
step (type_answered t) v = on_type_saved t v
step (failed s) v = on_save_failed s v

abbrev pub steps : List Step → View → View
steps [] v = v
steps (s ∷ ss) v = steps ss (step s v)

abbrev pub AreTexts : List String → Type 0
AreTexts xs = All (λ x. is_empty x ≡ false) xs

abbrev pub HasTexts : RolloutType → Type 0
HasTexts t = AreTexts t.rules

-- The items that the server and the lists bring hold no empty text.
abbrev pub IsClean : Step → Type 0
IsClean (loaded d) = All (λ (p : Product). AreTexts p.brokers) d.products × All HasTexts d.types
IsClean (selected_product p) = AreTexts p.brokers
IsClean (selected_type t) = HasTexts t
IsClean (product_answered p) = AreTexts p.brokers
IsClean (type_answered t) = HasTexts t
IsClean _ = Unit

abbrev pub name_of : Call → String
name_of (upsert_product p) = p.name
name_of (upsert_rollout_type t) = t.name

abbrev pub rules_of : Option RolloutType → List String
rules_of none = []
rules_of (some t) = t.rules

abbrev pub brokers_of : Option Product → List String
brokers_of none = []
brokers_of (some p) = p.brokers

abbrev pub IsNamed : Call → Type 0
IsNamed c = is_empty (trim (name_of c)) ≡ false

pub record IsValid (v : View) : Type 0 where
  pub named : All IsNamed v.calls
  pub rules : AreTexts (rules_of v.type_draft)
  pub brokers : AreTexts (brokers_of v.product_draft)

-- ===== src/MasterView/Tests.antt =====
-- The page of the master data, and the theorems there.
use release_radar.Prelude.{◌≡◌, refl, Option, some, List, [], ◌∷◌}
use release_radar.Prelude.Text.{trim, trim_start, trim_end}
use release_radar.Bus.{new_bus, bump}
use release_radar.Rollout.{RolloutType}
use release_radar.Data.{products}
use release_radar.Data.Types.{rollout_types}
use release_radar.MasterView.{
  View, new_view, on_data, select_product, new_product, select_type, new_type, patch_product,
  add_broker, remove_broker, save_product, on_product_saved, on_save_failed, patch_type, add_rule,
  remove_rule, add_task, edit_task, remove_task, up, put_tasks, move_in, move_task, add_stage,
  patch_stage, remove_stage, used_stage_keys, unused_stage_keys, save_type, on_type_saved,
}
use release_radar.MasterView.Sessions.{Step, step, steps, IsValid}
use release_radar.MasterView.Sessions.Valid.{steps-IsValid}

view_code : Unit {0}
unfolding on_data select_product new_product select_type new_type patch_product add_broker
    remove_broker save_product on_product_saved on_save_failed patch_type add_rule remove_rule
    add_task edit_task remove_task put_tasks move_in move_task add_stage patch_stage remove_stage
    used_stage_keys unused_stage_keys save_type on_type_saved step trim trim_start trim_end bump
view_code = tt

abbrev view : View
view = on_data (record { products = products; types = rollout_types }) (new_view new_bus)

abbrev session : List Step
session =
    Step.started_type
    ∷ Step.typed_rule " no rollout on Fridays "
    ∷ Step.added_rule
    ∷ Step.typed_rule "  "
    ∷ Step.added_rule
    ∷ Step.typed_task "deploy"
    ∷ Step.added_task
    ∷ Step.typed_task "verify"
    ∷ Step.added_task
    ∷ Step.moved_task 1 up
    ∷ Step.saved_type
    ∷ []

abbrev new_draft : Option RolloutType
new_draft = some (record {
  id = "";
  name = "new rollout type";
  short = "new";
  tone = "neutral";
  cascade_plan = record { stage = "non-prod"; delay_hours = 0 } ∷ [];
  announce = "";
  rules = "no rollout on Fridays" ∷ [];
  tasks = "verify" ∷ "deploy" ∷ [];
})

edited : (steps session view).type_draft ≡ new_draft
unfolding view_code
edited = refl

-- The answer to a save comes after another product was selected: its draft is gone.
overtaken :
    (steps (Step.saved_product ∷ Step.started_product ∷ []) view).product_draft
    ≡ (new_product view).product_draft
unfolding view_code
overtaken = refl

steps-IsValid_example : IsValid (steps session (new_view new_bus))
steps-IsValid_example =
    steps-IsValid session (new_view new_bus)
      (tt, (tt, (tt, (tt, (tt, (tt, (tt, (tt, (tt, (tt, (tt, tt)))))))))))
      (record { named = tt; rules = tt; brokers = tt })

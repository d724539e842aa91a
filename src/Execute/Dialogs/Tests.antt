-- ===== src/Execute/Dialogs/Tests.antt =====
-- The dialogs of the prototype, and the theorem there.
use release_radar.Prelude.{◌≡◌, refl, none, some, List, [], ◌∷◌, map, length, ltb, if◌then◌else◌}
use release_radar.Prelude.Decimal.{decimal}
use release_radar.Stage.{CascadeStage, get_stage, format_delay, cascade_stages}
use release_radar.Execute.Dialogs.{
  PreviewCard, cascade_preview, preview_stages, dialog_preview, new_create_form, pick_actor,
}
use release_radar.MasterData.Lists.{toggle_pair}
use release_radar.Execute.Dialogs.Cascade.{shown, planned, listed, dialog_preview_lem}

dialogs_code : Unit {0}
unfolding cascade_preview preview_stages dialog_preview pick_actor toggle_pair get_stage
    format_delay decimal
dialogs_code = tt

abbrev plan : List CascadeStage
plan =
    record { stage = "non-prod"; delay_hours = 0 }
    ∷ record { stage = "prod1"; delay_hours = 168 }
    ∷ record { stage = "prod2"; delay_hours = 150 }
    ∷ []

-- The arrow to a stage that comes earlier has both signs.
arrows :
    map
      (λ (c : PreviewCard). c.arrow)
      (cascade_preview (λ key. "XX") (preview_stages 0 (some plan)))
    ≡ some "+7d" ∷ some "+-18h" ∷ none ∷ []
unfolding dialogs_code
arrows = refl

-- A third actor takes the place of the first.
actors : (pick_actor "sim" new_create_form).pair ≡ "hen" ∷ "sim" ∷ []
unfolding dialogs_code
actors = refl

-- A plan that is there and empty has no stage in the preview.
empty : preview_stages 0 (some []) ≡ []
unfolding dialogs_code
empty = refl

dialog_preview_lem_example : shown (dialog_preview 5 (some plan)) ≡ (
    if ltb 1 (length (listed (some plan)))
    then some (map planned (cascade_stages 5 (listed (some plan)) 2))
    else none)
dialog_preview_lem_example = dialog_preview_lem 5 2 (some plan)

-- ===== src/Execute/Dialogs/Cascade.antt =====
-- The prototype's preview of a cascade, and the stages that the client creates.
use release_radar.Prelude.{
  ℕ, suc, true, ◌+◌, ◌*◌, ◌≡◌, refl, ap, String, Option, none, some, List, [], ◌∷◌, map, length,
  ltb, arith, if◌then◌else◌,
}
use release_radar.Stage.{
  CascadeStage, PlannedStage, place, hours_to_ns, cascade_stages, ms_per_hour,
}
use release_radar.Execute.Dialogs.{PreviewStage, preview_stage, preview_stages, dialog_preview}

-- The environment and the moment of a stage.
abbrev pub previewed : PreviewStage → String × ℕ
previewed s = (s.env, s.moment)

abbrev pub planned : PlannedStage → String × ℕ
planned s = (s.env, s.start_at)

-- The client knows no missing plan, only an empty one.
abbrev pub listed : Option (List CascadeStage) → List CascadeStage
listed none = []
listed (some plan) = plan

map-previewed :
    (base duration : ℕ) (plan : List CascadeStage)
    → map previewed (map (preview_stage base) plan) ≡ map planned (map (place base duration) plan)
map-previewed base duration [] = refl
map-previewed base duration (p ∷ plan) =
    ap ((p.stage, base + p.delay_hours * ms_per_hour) ∷◌) (map-previewed base duration plan)

-- The prototype previews the stages that the client creates, at the same moments, for a plan that
-- has a stage.
preview_stages-cascade_stages :
    (base duration : ℕ) (p : CascadeStage) (plan : List CascadeStage)
    → map previewed (preview_stages base (some (p ∷ plan)))
      ≡ map planned (cascade_stages base (p ∷ plan) duration)
unfolding preview_stages cascade_stages
preview_stages-cascade_stages base duration p plan =
    map-previewed base (hours_to_ns duration) (p ∷ plan)

abbrev pub shown : Option (List PreviewStage) → Option (List (String × ℕ))
shown none = none
shown (some stages) = some (map previewed stages)

at_least_two : (n : ℕ) → ltb 1 (suc (suc n)) ≡ true
at_least_two n = ground arith

-- The prototype's dialog has a preview exactly for a plan of at least two stages, and the preview shows
-- the stages that the client creates from the plan, at the same moments.
pub dialog_preview_lem :
    (base duration : ℕ) (plan : Option (List CascadeStage))
    → shown (dialog_preview base plan) ≡ (
        if ltb 1 (length (listed plan))
        then some (map planned (cascade_stages base (listed plan) duration))
        else none)
unfolding dialog_preview
dialog_preview_lem base duration none = refl
dialog_preview_lem base duration (some []) = refl
dialog_preview_lem base duration (some (p ∷ [])) = refl
dialog_preview_lem base duration (some (p ∷ q ∷ plan)) =
    rw (at_least_two (length plan))
      (ap some (preview_stages-cascade_stages base duration p (q ∷ plan)))

-- ===== src/Detail/View/Advisories.antt =====
-- The advisories of the page of a rollout, and those of the form that created it.
use mathlib.Core.List.{flatten}
use release_radar.Prelude.{ℕ, ◌≡◌, refl, ap, ap₂, String, some, List, [], ◌∷◌, ◌++◌, map, All}
use release_radar.Calendar.{Day}
use release_radar.Rollout.{Rollout, RolloutStage}
use release_radar.Stage.{PlannedStage, get_stage}
use release_radar.Create.Rollouts.{advisories_of, schedule_advisories}
use release_radar.Create.Rollouts.Advisories.{IsInTime, lead_advisory-eq-nil_iff}
use release_radar.Detail.View.{stage_advisories, page_advisories}

-- A planned stage as the server gives it back.
abbrev pub stored : PlannedStage → RolloutStage
stored s = record {
  env = s.env;
  start_at = s.start_at;
  duration_ns = s.duration_ns;
  status = s.status;
}

module _ (initials : String → String) (day_of : ℕ → Day) (now : ℕ) where
  abbrev pub InTime : PlannedStage → Type 0
  InTime s = IsInTime (get_stage initials s.env) now s.start_at

  advisories_of-InTime :
      (s : PlannedStage)
      → InTime s
      → advisories_of initials day_of now s ≡ stage_advisories initials day_of (stored s)
  advisories_of-InTime s h =
      let (to, from) = lead_advisory-eq-nil_iff (get_stage initials s.env) now s.start_at in
      ap (λ xs. xs ++ stage_advisories initials day_of (stored s)) (from h)

  all-InTime :
      (stages : List PlannedStage)
      → All InTime stages
      → schedule_advisories initials day_of now stages
        ≡ flatten (map (stage_advisories initials day_of) (map stored stages))
  unfolding schedule_advisories flatten
  all-InTime [] h = refl
  all-InTime (s ∷ stages) (h, hs) =
      ap₂ (λ (xs ys : List String). xs ++ ys) (advisories_of-InTime s h) (all-InTime stages hs)

  -- Where the notice of each stage is given, the form of a new rollout shows exactly the advisories
  -- that the page of the rollout shows for the same stages.
  pub schedule_advisories-page_advisories :
      (r : Rollout) (stages : List PlannedStage)
      → All InTime stages
      → schedule_advisories initials day_of now stages
        ≡ page_advisories initials day_of (some (record r { stages = map stored stages }))
  unfolding page_advisories
  schedule_advisories-page_advisories r stages h = all-InTime stages h

-- ===== src/Detail/View/Tests.antt =====
-- What the page shows of a rollout of two stages, and the theorems there.
use release_radar.Prelude.{
  ℕ, ◌*◌, ◌≡◌, ◌↔◌, refl, true, none, some, String, [], ◌∷◌, arith, inr, All, map,
}
use release_radar.Prelude.Decimal.{decimal}
use release_radar.Prelude.Dict.{lookup}
use release_radar.Calendar.{Day, day}
use release_radar.Rollout.{Rollout, RolloutStage, RolloutTask, pending, done, failed, TaskStatus}
use release_radar.Stage.{PlannedStage, get_stage, ms_per_hour, ns_per_hour}
use release_radar.Create.Rollouts.{schedule_advisories}
use release_radar.Detail
use release_radar.Detail.{failed_count, completion, new_detail}
use release_radar.Detail.View.{
  answered, type_of, lock_titles, page_advisories, failed_pct, hours, stage_gap, back,
}
use release_radar.Detail.View.Advisories.{stored, schedule_advisories-page_advisories}
use release_radar.Detail.View.Progress.{IsDone, completion-eq-100_iff}
use release_radar.Bus.{new_bus}

view_code : Unit {0}
unfolding type_of lock_titles failed_pct failed_count hours stage_gap back completion decimal
view_code = tt

abbrev stage_at : ℕ → RolloutStage
stage_at start = record {
  env = "non-prod";
  start_at = start;
  duration_ns = 2 * ns_per_hour;
  status = "scheduled";
}

abbrev task : ℕ → TaskStatus → RolloutTask
task i status = record { index = i; description = "Deploy"; status = status; reason = none }

abbrev rollout : Rollout
rollout = record {
  id = "r-101";
  product = "operator";
  type_id = "operator-feature";
  title = "operator 24.7";
  desc_ext = "";
  desc_int = "";
  risks = "";
  stages = [];
  pair = none;
  tasks = [];
}

-- The gap of a stage that lies before the one before it is negative, and always in hours.
gaps :
    (stage_gap (stage_at 0 ∷ stage_at (5 * ms_per_hour) ∷ []) 1 ≡ some "5h")
    × (stage_gap (stage_at 0 ∷ stage_at (36 * ms_per_hour) ∷ []) 1 ≡ some "2d")
    × (stage_gap (stage_at (48 * ms_per_hour) ∷ stage_at 0 ∷ []) 1 ≡ some "-48h")
    × (stage_gap (stage_at 0 ∷ []) 1 ≡ none)
unfolding view_code
gaps = (refl, refl, refl, refl)

numbers :
    (hours (2 * ns_per_hour) ≡ 2)
    × (failed_pct (task 0 failed ∷ task 1 done ∷ task 2 failed ∷ []) ≡ (200, 3))
    × (type_of (some rollout) (answered none) ≡ none)
    × (Detail.Detail.left (back (new_detail true new_bus)) ≡ true)
unfolding view_code
numbers = (refl, refl, refl, refl)

abbrev initials : String → String
initials key = "XX"

abbrev friday : ℕ → Day
friday _ = day 2026 5 8

abbrev planned : PlannedStage
planned = record { env = "non-prod"; start_at = ms_per_hour; duration_ns = 0; status = "scheduled" }

schedule_advisories-page_advisories_example :
    schedule_advisories initials friday 0 (planned ∷ [])
    ≡ page_advisories initials friday (some (record rollout { stages = map stored (planned ∷ []) }))
unfolding get_stage lookup
schedule_advisories-page_advisories_example =
    schedule_advisories-page_advisories initials friday 0 rollout (planned ∷ [])
      (inr (omega arith), tt)

completion-eq-100_iff_example :
    (completion (task 0 done ∷ task 1 pending ∷ []) ≡ 100)
    ↔ All IsDone (task 0 done ∷ task 1 pending ∷ [])
completion-eq-100_iff_example =
    completion-eq-100_iff (task 0 done) (task 1 pending ∷ []) (omega arith)

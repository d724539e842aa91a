-- ===== src/Create/Rollouts/Advisories.antt =====
-- create-rollout-modal.component.ts: when the dates of a rollout have no advisory.
use mathlib.Core.List.{flatten}
use release_radar.Prelude.{
  ℕ, ◌+◌, ◌*◌, ◌≤◌, ◌≡◌, ◌↔◌, ◌⊎◌, String, List, [], ◌∷◌, map, refl, All, append-eq-nil_iff, arith,
}
use release_radar.Prelude.Text.{◌◇◌}
use release_radar.Calendar.{Day}
use release_radar.Schedule.{schedule_warnings}
use release_radar.Stage.{PlannedStage, StageMeta, get_stage, ms_per_hour}
use release_radar.Create.Rollouts.{lead_advisory, advisories_of, schedule_advisories}

-- The notice of a stage is given, if one is asked.
abbrev pub IsInTime : StageMeta → ℕ → ℕ → Type 0
IsInTime m now start = (m.min_advance_hours ≡ 0) ⊎ (now + m.min_advance_hours * ms_per_hour ≤ start)

abbrev pub IsClear : (String → String) → (ℕ → Day) → ℕ → PlannedStage → Type 0
IsClear initials day_of now s =
    IsInTime (get_stage initials s.env) now s.start_at
    × (schedule_warnings (day_of s.start_at) ≡ [])

pub lead_advisory-eq-nil_iff :
    (m : StageMeta) (now start : ℕ) → (lead_advisory m now start ≡ []) ↔ IsInTime m now start
lead_advisory-eq-nil_iff m now start = ground arith

map-eq-nil_iff : {A B : Type 0} (f : A → B) (xs : List A) → (map f xs ≡ []) ↔ (xs ≡ [])
map-eq-nil_iff f [] = (λ _. refl, λ _. refl)
map-eq-nil_iff f (x ∷ xs) = ground arith

advisories_of-eq-nil_iff :
    (initials : String → String) (day_of : ℕ → Day) (now : ℕ) (s : PlannedStage)
    → (advisories_of initials day_of now s ≡ []) ↔ IsClear initials day_of now s
advisories_of-eq-nil_iff initials day_of now s =
    let meta = get_stage initials s.env in
    let warnings = schedule_warnings (day_of s.start_at) in
    let (split, join) =
      append-eq-nil_iff (lead_advisory meta now s.start_at)
        (map (λ w. meta.label ◇ ": " ◇ w) warnings) in
    let (to, from) = lead_advisory-eq-nil_iff meta now s.start_at in
    let (to', from') = map-eq-nil_iff (λ (w : String). meta.label ◇ ": " ◇ w) warnings in
    (λ p. let (a, b) = split p in (to a, to' b), λ (a, b). join (from a, from' b))

-- The form shows no advisory exactly when each stage leaves the notice that its environment asks for, and
-- starts on a day without warnings.
pub schedule_advisories-eq-nil_iff :
    (initials : String → String) (day_of : ℕ → Day) (now : ℕ) (stages : List PlannedStage)
    → (schedule_advisories initials day_of now stages ≡ [])
      ↔ All (IsClear initials day_of now) stages
unfolding schedule_advisories flatten
schedule_advisories-eq-nil_iff initials day_of now [] = (λ _. tt, λ _. refl)
schedule_advisories-eq-nil_iff initials day_of now (s ∷ stages) =
    let (split, join) =
      append-eq-nil_iff (advisories_of initials day_of now s)
        (schedule_advisories initials day_of now stages) in
    let (to, from) = advisories_of-eq-nil_iff initials day_of now s in
    let (to', from') = schedule_advisories-eq-nil_iff initials day_of now stages in
    (λ p. let (a, b) = split p in (to a, to' b), λ (a, b). join (from a, from' b))

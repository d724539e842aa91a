-- ===== src/Create/Rollouts/Tests.antt =====
-- The form of a rollout, and the theorems there.
use text.Mathlib.Text.{◌==◌ as str_eq}
use release_radar.Prelude.{
  ℕ, ◌≤◌, ◌≡◌, ◌↔◌, refl, true, false, String, Option, none, some, List, [], ◌∷◌, ◌++◌, map, length,
  All, if◌then◌else◌,
}
use release_radar.Prelude.Int.{pos}
use release_radar.Prelude.Text.{trim, trim_start, trim_end, split_commas}
use release_radar.Bus.{new_bus, bump}
use release_radar.Calendar.{day}
use release_radar.Stage.{PlannedStage, cascade_stages, hours_to_ns}
use release_radar.Detail.{parse_pair}
use release_radar.Auth.{Dialog, open_rollout, close}
use release_radar.Data.{products}
use release_radar.Data.Types.{rollout_types}
use release_radar.Create.Rollouts.{
  RolloutForm, Inputs, FormEvent, got_products, got_types, typed, submitted, created, refused,
  new_rollout_form, base_iso, preview, can_create, schedule_advisories, settle, step_hours,
  submit_rollout, on_rollout_created, on_rollout_refused, run_form,
}
use release_radar.Create.Rollouts.Advisories.{IsClear, schedule_advisories-eq-nil_iff}
use release_radar.Create.Rollouts.Sessions.{run_form_calls_once, run_form-submit_undated}

rollout_form_code : Unit {0}
unfolding base_iso preview can_create settle step_hours submit_rollout on_rollout_created
    on_rollout_refused run_form cascade_stages hours_to_ns parse_pair split_commas trim trim_start
    trim_end bump open_rollout close
rollout_form_code = tt

abbrev initials : String → String
initials key = key

abbrev dialog : Dialog
dialog = open_rollout (record { kind = none; lock_edit = none })

-- 2026-05-05 at ten, and nothing for any other text.
abbrev date : String → Option ℕ
date iso = if str_eq iso "2026-05-05T10:00:00" then some 1777968000000 else none

abbrev blank : RolloutForm
blank = new_rollout_form "2026-05-05" new_bus dialog

abbrev filled : Inputs
filled = record blank.inputs {
  product_id = "operator";
  type_id = "operator-feature";
  title = " operator 24.7 ";
  pair_text = "LM, SK,";
}

abbrev session : List FormEvent
session =
    got_products (some products)
    ∷ got_types (some rollout_types)
    ∷ typed filled
    ∷ submitted
    ∷ submitted
    ∷ []

abbrev done : RolloutForm
done = run_form date session blank

sends :
    (map (λ b. b.title) done.calls ≡ "operator 24.7" ∷ [])
    × (map (λ b. b.pair) done.calls ≡ ("LM" ∷ "SK" ∷ []) ∷ [])
    × (map (λ b. length b.stages) done.calls ≡ 3 ∷ [])
unfolding rollout_form_code
sends = (refl, refl, refl)

selects :
    ((run_form date (got_products (some products) ∷ []) blank).inputs.product_id ≡ "operator")
    × (can_create blank ≡ false)
unfolding rollout_form_code
selects = (refl, refl)

ends :
    ((run_form date (session ++ created "r9" ∷ []) blank).route ≡ some "r9")
    × (can_create (run_form date (session ++ refused "no" ∷ []) blank) ≡ true)
unfolding rollout_form_code
ends = (refl, refl)

-- The hours between the first two stages of the plans.
steps :
    map (λ t. step_hours t 0) rollout_types
    ≡ pos 0 ∷ pos 0 ∷ pos 0 ∷ pos 168 ∷ pos 168 ∷ pos 24 ∷ pos 0 ∷ pos 0 ∷ []
unfolding rollout_form_code
steps = refl

abbrev np : ℕ → PlannedStage
np start = record { env = "non-prod"; start_at = start; duration_ns = 0; status = "scheduled" }

schedule_advisories-eq-nil_iff_example :
    (schedule_advisories initials (λ _. day 2026 5 5) 0 (np 3600000 ∷ []) ≡ [])
    ↔ All (IsClear initials (λ _. day 2026 5 5) 0) (np 3600000 ∷ [])
schedule_advisories-eq-nil_iff_example =
    schedule_advisories-eq-nil_iff initials (λ _. day 2026 5 5) 0 (np 3600000 ∷ [])

run_form_calls_once_example : length (run_form date session blank).calls ≤ 1
run_form_calls_once_example =
    run_form_calls_once date session blank refl (tt, (tt, (tt, (tt, (tt, tt)))))

-- The date was cleared before the click, and filled in again after it.
abbrev undated : RolloutForm
undated = record blank { inputs = record filled { start_date = "" } }

run_form-submit_undated_example :
    (run_form date (typed filled ∷ submitted ∷ []) (submit_rollout date undated)).calls ≡ []
unfolding rollout_form_code
run_form-submit_undated_example =
    run_form-submit_undated date undated (typed filled ∷ submitted ∷ []) refl refl (tt, (tt, tt))

-- ===== src/Create/Rollouts.antt =====
-- frontend/src/app/features/create/create-rollout-modal.component.ts: the form that creates a rollout,
-- with its preview and its advisories. How the browser reads a local date and time, and the local day of
-- a moment, are parameters; the calls of the API are kept, newest first.
pub mod Advisories
pub mod Sessions
mod Tests
use text.Mathlib.Text.{◌==◌ as str_eq}
use release_radar.Prelude.{
  ℕ, ◌+◌, ◌-◌, ◌*◌, ◌/◌, Bool, true, false, not, ◌&&◌, String, Option, none, some, List, [], ◌∷◌,
  ◌++◌, map, find, flatten, get_elem?, ltb, ◌==◌, if◌then◌else◌,
}
use release_radar.Prelude.Decimal.{decimal}
use release_radar.Prelude.Int.{ℤ, sub_ℕ}
use release_radar.Prelude.Text.{trim, is_empty, ◌◇◌}
use release_radar.Bus.{Bus, bump}
use release_radar.Calendar.{Day}
use release_radar.Schedule.{schedule_warnings}
use release_radar.Rollout.{Product, RolloutType, CascadeStage as PlanEntry}
use release_radar.Stage.{
  PlannedStage, CascadeStage, cascade_stages, get_stage, StageMeta, ms_per_hour,
}
use release_radar.Detail.{parse_pair}
use release_radar.Auth.{Dialog, close}

-- The body of `createRollout`.
pub record RolloutBody : Type 0 where
  pub product : String
  pub type_id : String
  pub title : String
  pub desc_ext : String
  pub desc_int : String
  pub risks : String
  pub stages : List PlannedStage
  pub pair : List String

-- What the inputs hold.
pub record Inputs : Type 0 where
  pub product_id : String
  pub type_id : String
  pub title : String
  pub start_date : String
  pub start_time : String
  pub duration_hours : ℕ
  pub desc_ext : String
  pub desc_int : String
  pub risks : String
  pub pair_text : String

-- `route` is the rollout that the form leads to, once it is created.
pub record RolloutForm : Type 0 where
  pub products : List Product
  pub types : List RolloutType
  pub inputs : Inputs
  pub submitting : Bool
  pub error : Option String
  pub calls : List RolloutBody
  pub route : Option String
  pub bus : Bus
  pub dialog : Dialog

-- `tomorrow` is what `defaultDate` gives.
abbrev pub new_rollout_form : String → Bus → Dialog → RolloutForm
new_rollout_form tomorrow bus dialog = record {
  products = [];
  types = [];
  inputs = record {
    product_id = "";
    type_id = "";
    title = "";
    start_date = tomorrow;
    start_time = "10:00";
    duration_hours = 2;
    desc_ext = "";
    desc_int = "";
    risks = "";
    pair_text = "";
  };
  submitting = false;
  error = none;
  calls = [];
  route = none;
  bus = bus;
  dialog = dialog;
}

abbrev pub selected_type : RolloutForm → Option RolloutType
selected_type f = find (λ (t : RolloutType). str_eq t.id f.inputs.type_id) f.types

unfoldable pub base_iso : Inputs → String
base_iso i = i.start_date ◇ "T" ◇ i.start_time ◇ ":00"

abbrev pub plan_entry : PlanEntry → CascadeStage
plan_entry p = record { stage = p.stage; delay_hours = p.delay_hours }

abbrev pub plan_of : Option RolloutType → List CascadeStage
plan_of none = []
plan_of (some t) = map plan_entry t.cascade_plan

-- `date` is `new Date(iso).getTime()`, with nothing for an invalid date.
module _ (date : String → Option ℕ) where
  -- `toISOString` throws at an invalid date: nothing.
  unfoldable pub preview : RolloutForm → Option (List PlannedStage)
  unfolding base_iso cascade_stages
  preview f = elim (date (base_iso f.inputs)) [
    | none ↦ none
    | some base ↦ some (cascade_stages base (plan_of (selected_type f)) f.inputs.duration_hours)
  ]

unfoldable pub can_create : RolloutForm → Bool
can_create f =
    not (is_empty f.inputs.product_id)
    && (not (is_empty f.inputs.type_id)
        && (not (is_empty (trim f.inputs.title)) && not f.submitting))

-- `Math.max(0, Math.round(leadHours))`
abbrev pub lead_hours : ℕ → ℕ → ℕ
lead_hours now start =
    if ltb start now then 0 else (2 * (start - now) + ms_per_hour) / (2 * ms_per_hour)

abbrev pub lead_text : StageMeta → ℕ → ℕ → String
lead_text meta now start =
    meta.label
    ◇ ": only "
    ◇ decimal (lead_hours now start)
    ◇ "h lead time — policy asks for ≥ "
    ◇ decimal meta.min_advance_hours
    ◇ "h advance notice."

abbrev pub lead_advisory : StageMeta → ℕ → ℕ → List String
lead_advisory meta now start =
    if not (meta.min_advance_hours == 0) && ltb start (now + meta.min_advance_hours * ms_per_hour)
    then lead_text meta now start ∷ []
    else []

abbrev pub advisories_of : (String → String) → (ℕ → Day) → ℕ → PlannedStage → List String
advisories_of initials day_of now s =
    let meta = get_stage initials s.env in
    lead_advisory meta now s.start_at
    ++ map (λ w. meta.label ◇ ": " ◇ w) (schedule_warnings (day_of s.start_at))

-- The advisories of the stages that the preview shows.
unfoldable pub schedule_advisories :
    (String → String) → (ℕ → Day) → ℕ → List PlannedStage → List String
schedule_advisories initials day_of now stages =
    flatten (map (advisories_of initials day_of now) stages)

-- The effects: the first product and the first type are selected where none is.
abbrev pub select_product : List Product → Inputs → Inputs
select_product [] i = i
select_product (p ∷ ps) i = if is_empty i.product_id then record i { product_id = p.id } else i

abbrev pub select_type : List RolloutType → Inputs → Inputs
select_type [] i = i
select_type (t ∷ ts) i = if is_empty i.type_id then record i { type_id = t.id } else i

unfoldable pub settle : RolloutForm → RolloutForm
settle f = record f { inputs = select_type f.types (select_product f.products f.inputs) }

abbrev pub delay_at : List PlanEntry → ℕ → ℕ
delay_at plan i = elim (get_elem? plan i) [ none ↦ 0 | some p ↦ p.delay_hours ]

-- The hours between two stages of the plan, which `stepDelay` formats.
unfoldable pub step_hours : RolloutType → ℕ → ℤ
step_hours t i = sub_ℕ (delay_at t.cascade_plan (i + 1)) (delay_at t.cascade_plan i)

abbrev pub body_of : RolloutForm → List PlannedStage → RolloutBody
body_of f stages = record {
  product = f.inputs.product_id;
  type_id = f.inputs.type_id;
  title = trim f.inputs.title;
  desc_ext = f.inputs.desc_ext;
  desc_int = f.inputs.desc_int;
  risks = f.inputs.risks;
  stages = stages;
  pair = parse_pair f.inputs.pair_text;
}

-- Where the preview throws, the form has been marked before, and nothing is called.
abbrev pub send : Option (List PlannedStage) → RolloutForm → RolloutForm
send none f = f
send (some stages) f = record f { calls = body_of f stages ∷ f.calls }

unfoldable pub submit_rollout : (String → Option ℕ) → RolloutForm → RolloutForm
unfolding can_create preview
submit_rollout date f =
    if not (can_create f)
    then f
    else send (preview date f) (record f { submitting = true; error = none })

unfoldable pub on_rollout_created : String → RolloutForm → RolloutForm
unfolding bump close
on_rollout_created id f = record f { bus = bump f.bus; dialog = close f.dialog; route = some id }

unfoldable pub on_rollout_refused : String → RolloutForm → RolloutForm
on_rollout_refused message f = record f { submitting = false; error = some message }

-- What happens to a form: an answer, an input, a click.
pub data FormEvent : Type 0 where
  got_products : Option (List Product) → FormEvent
  got_types : Option (List RolloutType) → FormEvent
  typed : Inputs → FormEvent
  submitted : FormEvent
  created : String → FormEvent
  refused : String → FormEvent

-- A failed request gives the empty list.
abbrev pub or_empty {ℓ} : {A : Type ℓ} → Option (List A) → List A
or_empty none = []
or_empty (some xs) = xs

abbrev pub handle : (String → Option ℕ) → FormEvent → RolloutForm → RolloutForm
handle date (got_products answer) f = record f { products = or_empty answer }
handle date (got_types answer) f = record f { types = or_empty answer }
handle date (typed i) f = record f { inputs = i }
handle date submitted f = submit_rollout date f
handle date (created id) f = on_rollout_created id f
handle date (refused message) f = on_rollout_refused message f

unfoldable pub run_form : (String → Option ℕ) → List FormEvent → RolloutForm → RolloutForm
unfolding settle submit_rollout on_rollout_created on_rollout_refused
run_form date [] f = f
run_form date (e ∷ es) f = run_form date es (settle (handle date e f))

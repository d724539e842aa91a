-- ===== src/Execute/Dialogs.antt =====
-- panels.jsx: the dialogs of the prototype, CreateRolloutModal with its CascadePreview, and the kind of
-- CreateLockModal. A start is the moment that the date and the time give; the local texts are left out.
pub mod Cascade
mod Tests
use release_radar.Prelude.{
  ℕ, ◌+◌, ◌-◌, ◌*◌, ◌/◌, Bool, true, false, String, Option, none, some, List, [], ◌∷◌, map, length,
  ltb, leb, if◌then◌else◌,
}
use release_radar.Prelude.Decimal.{decimal}
use release_radar.Prelude.Text.{◌◇◌}
use release_radar.Rollout.{LockKind, manual}
use release_radar.Stage.{CascadeStage, StageMeta, get_stage, format_delay, ms_per_hour}
use release_radar.MasterData.Lists.{toggle_pair}
use release_radar.Execute.{toggle_product}

pub record CreateForm : Type 0 where
  pub product_id : String
  pub type_id : String
  pub start : String
  pub time : String
  pub pair : List String
  pub desc_ext : String
  pub desc_int : String
  pub announcement_text : String
  pub risks : String

abbrev pub new_create_form : CreateForm
new_create_form = record {
  product_id = "operator";
  type_id = "operator-feature";
  start = "2026-06-03";
  time = "10:00";
  pair = "luc" ∷ "hen" ∷ [];
  desc_ext = "";
  desc_int = "";
  announcement_text = "";
  risks = "";
}

unfoldable pub pick_actor : String → CreateForm → CreateForm
unfolding toggle_pair
pick_actor id f = record f { pair = toggle_pair f.pair id }

unfoldable pub copy_description : CreateForm → CreateForm
copy_description f = record f { announcement_text = f.desc_ext }

-- The preview of a cascade.
pub record PreviewStage : Type 0 where
  pub env : String
  pub hours : ℕ
  pub moment : ℕ

abbrev pub preview_stage : ℕ → CascadeStage → PreviewStage
preview_stage base p = record {
  env = p.stage;
  hours = p.delay_hours;
  moment = base + p.delay_hours * ms_per_hour;
}

-- An empty plan is a plan: only where there is none a stage takes its place.
abbrev pub plan_or_default : Option (List CascadeStage) → List CascadeStage
plan_or_default none = record { stage = "non-prod"; delay_hours = 0 } ∷ []
plan_or_default (some plan) = plan

unfoldable pub preview_stages : ℕ → Option (List CascadeStage) → List PreviewStage
preview_stages base plan = map (preview_stage base) (plan_or_default plan)

-- The dialog has the preview for a plan of at least two stages.
unfoldable pub dialog_preview : ℕ → Option (List CascadeStage) → Option (List PreviewStage)
unfolding preview_stages
dialog_preview base none = none
dialog_preview base (some plan) =
    if ltb 1 (length plan) then some (preview_stages base (some plan)) else none

-- `"+" + formatDelay(next - hours)`; of a delay that falls `formatDelay` writes the hours.
abbrev pub arrow_text : ℕ → ℕ → String
unfolding format_delay decimal
arrow_text h next =
    "+" ◇ (if leb h next then format_delay (next - h) else "-" ◇ decimal (h - next) ◇ "h")

pub record PreviewCard : Type 0 where
  pub short : String
  pub label : String
  pub moment : ℕ
  pub arrow : Option String

abbrev pub arrow_to : ℕ → List PreviewStage → Option String
arrow_to h [] = none
arrow_to h (s ∷ stages) = some (arrow_text h s.hours)

module _ (initials : String → String) where
  unfoldable pub cascade_preview : List PreviewStage → List PreviewCard
  unfolding get_stage format_delay decimal
  cascade_preview [] = []
  cascade_preview (s ∷ stages) =
      let meta = get_stage initials s.env in
      record {
        short = meta.short;
        label = meta.label;
        moment = s.moment;
        arrow = arrow_to s.hours stages;
      }
      ∷ cascade_preview stages

-- The lock's dialog.
pub record LockDialog : Type 0 where
  pub kind : LockKind
  pub products : List String

abbrev pub new_lock_dialog : LockDialog
new_lock_dialog = record { kind = manual; products = "all" ∷ [] }

unfoldable pub pick_kind : LockKind → LockDialog → LockDialog
pick_kind k d = record d { kind = k }

unfoldable pub pick_all : LockDialog → LockDialog
pick_all d = record d { products = "all" ∷ [] }

unfoldable pub pick_product : String → LockDialog → LockDialog
unfolding toggle_product
pick_product id d = record d { products = toggle_product d.products id }

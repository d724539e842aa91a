-- ===== src/Stage.antt =====
-- frontend/src/app/core/stage.ts, and the same helpers of design/project/shell.jsx with the
-- announcement policy there: stages, delays and the expansion of a cascade plan.
-- A moment is its number of milliseconds, which an ISO text writes; delays are whole hours.
pub mod Policy
pub mod Cascade
mod Tests
use text.Mathlib.Text.{◌==◌ as str_eq}
use Prim.Native.String.{slice}
use Prim.Native.String
use release_radar.Prelude.{
  ℕ, ◌+◌, ◌*◌, ◌/◌, ◌%◌, Bool, true, false, ◌||◌, String, Option, none, some, List, [], ◌∷◌, map,
  ltb, ◌==◌, if◌then◌else◌,
}
use release_radar.Prelude.Decimal.{decimal}
use release_radar.Prelude.Text.{◌◇◌, join}
use release_radar.Prelude.Dict.{lookup, insert}

pub record StageMeta : Type 0 where
  pub label : String
  pub short : String
  pub color : String
  pub soft : String
  pub border : String
  pub announce_channel : String
  pub min_advance_hours : ℕ

-- The table `STAGE`.
abbrev pub stages : List (String × StageMeta)
stages =
    (
      "non-prod",
      record {
        label = "non-prod";
        short = "NP";
        color = "#a78bfa";
        soft = "rgba(167,139,250,.15)";
        border = "rgba(167,139,250,.55)";
        announce_channel = "TMS_NP";
        min_advance_hours = 1;
      },
    )
    ∷ (
      "prod1",
      record {
        label = "prod1 · Frankfurt";
        short = "P1";
        color = "#5eead4";
        soft = "rgba(94,234,212,.12)";
        border = "rgba(94,234,212,.5)";
        announce_channel = "TMS_PROD";
        min_advance_hours = 168;
      },
    )
    ∷ (
      "prod2",
      record {
        label = "prod2 · Zeus";
        short = "P2";
        color = "#fbbf24";
        soft = "rgba(251,191,36,.12)";
        border = "rgba(251,191,36,.5)";
        announce_channel = "TMS_PROD";
        min_advance_hours = 336;
      },
    )
    ∷ []

-- `text.slice(0, 2).toUpperCase()` is a parameter: the library has no letters' cases.
module _ (initials : String → String) where
  abbrev pub fallback_stage : String → StageMeta
  fallback_stage key = record {
    label = key;
    short = initials (if str_eq key "" then "??" else key);
    color = "#94a3b8";
    soft = "rgba(148,163,184,.12)";
    border = "rgba(148,163,184,.5)";
    announce_channel = "TMS_PROD";
    min_advance_hours = 24;
  }

  unfoldable pub get_stage : String → StageMeta
  get_stage key = elim (lookup key stages) [ none ↦ fallback_stage key | some meta ↦ meta ]

unfoldable pub product_color : String → String
product_color id =
    if str_eq id "operator"
    then "#a78bfa"
    else if str_eq id "concentrator"
    then "#5eead4"
    else if str_eq id "monalesy"
    then "#fbbf24"
    else if str_eq id "microservices"
    then "#fb7185"
    else "#888"

unfoldable pub format_delay : ℕ → String
unfolding decimal
format_delay h =
    if h == 0
    then "0h"
    else if ltb h 24
    then decimal h ◇ "h"
    else if h % 24 == 0
    then decimal (h / 24) ◇ "d"
    else decimal (h / 24) ◇ "d " ◇ decimal (h % 24) ◇ "h"

abbrev pub ms_per_hour : ℕ
ms_per_hour = 3600000

abbrev pub ns_per_hour : ℕ
ns_per_hour = 3600000000000

unfoldable pub hours_to_ns : ℕ → ℕ
hours_to_ns hours = hours * ns_per_hour

-- Of a duration in whole hours.
unfoldable pub ns_to_hours : ℕ → ℕ
ns_to_hours ns = ns / ns_per_hour

pub record CascadeStage : Type 0 where
  pub stage : String
  pub delay_hours : ℕ

pub record PlannedStage : Type 0 where
  pub env : String
  pub start_at : ℕ
  pub duration_ns : ℕ
  pub status : String

abbrev pub entries : List CascadeStage → List CascadeStage
entries [] = record { stage = "non-prod"; delay_hours = 0 } ∷ []
entries (p ∷ plan) = p ∷ plan

abbrev pub place : ℕ → ℕ → CascadeStage → PlannedStage
place base duration p = record {
  env = p.stage;
  start_at = base + p.delay_hours * ms_per_hour;
  duration_ns = duration;
  status = "scheduled";
}

unfoldable pub cascade_stages : ℕ → List CascadeStage → ℕ → List PlannedStage
unfolding hours_to_ns
cascade_stages base plan duration_hours =
    map (place base (hours_to_ns duration_hours)) (entries plan)

-- The announcement policy: for each channel, in the order in which the plan meets them, the
-- longest notice that one of its stages asks for.
abbrev pub is_longer : Option ℕ → ℕ → Bool
is_longer none h = true
is_longer (some old) h = old == 0 || ltb old h

unfoldable pub note_channel : StageMeta → List (String × ℕ) → List (String × ℕ)
note_channel s seen =
    if is_longer (lookup s.announce_channel seen) s.min_advance_hours
    then insert s.announce_channel s.min_advance_hours seen
    else seen

abbrev pub note_all : List StageMeta → List (String × ℕ) → List (String × ℕ)
note_all [] seen = seen
note_all (s ∷ metas) seen = note_all metas (note_channel s seen)

unfoldable pub derive_announce_policy : (String → String) → List CascadeStage → String
unfolding format_delay note_channel get_stage
derive_announce_policy initials plan = join " • " (
    map (λ (e : String × ℕ). e.0 ◇ " ≥ " ◇ format_delay e.1)
      (note_all (map (λ (p : CascadeStage). get_stage initials p.stage) plan) []))

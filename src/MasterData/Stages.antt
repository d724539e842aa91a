-- ===== src/MasterData/Stages.antt =====
-- master-data.jsx: StagesEditor, whose stages carry their place in the list.
pub mod Order
use text.Mathlib.Text.{◌==◌ as str_eq}
use release_radar.Prelude.{
  ℕ, zero, suc, ◌+◌, ◌%◌, Bool, true, false, not, String, Option, none, some, List, [], ◌∷◌, ◌++◌,
  filter, length, get_elem?, set, ltb, if◌then◌else◌,
}
use release_radar.Stage.{StageMeta}
use release_radar.MasterData.{Editor, is_id, first_id, add}

pub record StageItem : Type 0 where
  pub id : String
  pub key : String
  pub label : String
  pub short : String
  pub color : String
  pub description : String
  pub region : String
  pub requires_pair : Bool
  pub announce_channel : String
  pub min_advance_hours : ℕ
  pub order : ℕ
  pub enabled : Bool

abbrev pub stage_id : StageItem → String
stage_id s = s.id

unfoldable pub default_stage_description : String → String
default_stage_description key =
    if str_eq key "non-prod"
    then "Internal test cluster. Used as the first stage of every cascade."
    else if str_eq key "prod1"
    then "Frankfurt-am-Main production. Carries ~60% of EU traffic."
    else if str_eq key "prod2"
    then "Zeus production. EU failover region."
    else ""

unfoldable pub default_stage_region : String → String
default_stage_region key =
    if str_eq key "non-prod"
    then "Internal"
    else if str_eq key "prod1"
    then "Frankfurt-am-Main"
    else if str_eq key "prod2"
    then "Zeus"
    else "—"

-- The stages at the start, from the table `STAGE`.
unfoldable pub init_stages : ℕ → List (String × StageMeta) → List StageItem
unfolding default_stage_description default_stage_region
init_stages i [] = []
init_stages i ((key, s) ∷ rest) =
    record {
      id = key;
      key = key;
      label = s.label;
      short = s.short;
      color = s.color;
      description = default_stage_description key;
      region = default_stage_region key;
      requires_pair = not (str_eq key "non-prod");
      announce_channel = if str_eq key "non-prod" then "TMS_NP" else "TMS_PROD";
      min_advance_hours = if str_eq key "non-prod" then 1 else 24;
      order = i;
      enabled = true;
    }
    ∷ init_stages (i + 1) rest

-- `stages.map((s, k) => ({ ...s, order: k }))`
abbrev pub number_from : ℕ → List StageItem → List StageItem
number_from k [] = []
number_from k (s ∷ stages) = record s { order = k } ∷ number_from (k + 1) stages

unfoldable pub find_index : String → List StageItem → Option ℕ
find_index id [] = none
find_index id (s ∷ stages) =
    let rest = find_index id stages in
    if str_eq s.id id then some 0 else elim rest [ none ↦ none | some i ↦ some (suc i) ]

pub data Dir : Type 0 where
  up down : Dir

abbrev pub target : ℕ → Dir → Option ℕ
target zero up = none
target (suc i) up = some i
target i down = some (suc i)

abbrev pub exchange : ℕ → ℕ → Option StageItem → Option StageItem → List StageItem → List StageItem
exchange i j (some a) (some b) stages = set (set stages i b) j a
exchange i j none b stages = stages
exchange i j (some a) none stages = stages

-- A place that the list has not, before it or behind, gives back the list.
abbrev pub move_to : ℕ → Option ℕ → List StageItem → List StageItem
move_to i none stages = stages
move_to i (some j) stages =
    if not (ltb j (length stages))
    then stages
    else number_from 0 (exchange i j (get_elem? stages i) (get_elem? stages j) stages)

-- The id is that of a stage shown, so that `findIndex` finds it.
abbrev pub move_found : Option ℕ → Dir → List StageItem → List StageItem
move_found none dir stages = stages
move_found (some i) dir stages = move_to i (target i dir) stages

unfoldable pub move : String → Dir → Editor StageItem → Editor StageItem
unfolding find_index
move id dir e = record e { items = move_found (find_index id e.items) dir e.items }

abbrev pub stage_colors : List String
stage_colors =
    "#a78bfa" ∷ "#5eead4" ∷ "#fbbf24" ∷ "#fb7185" ∷ "#7c8cff" ∷ "#34d399" ∷ "#f472b6" ∷ "#38bdf8"
    ∷ []

abbrev pub color_at : List String → ℕ → String
color_at colors i = elim (get_elem? colors i) [ none ↦ "" | some c ↦ c ]

unfoldable pub add_stage : String → Editor StageItem → Editor StageItem
unfolding add
add_stage id e =
    add stage_id
      (record {
        id = id;
        key = "prod3";
        label = "prod3 · new region";
        short = "P3";
        color = color_at stage_colors (length e.items % 8);
        description = "";
        region = "—";
        requires_pair = true;
        announce_channel = "TMS_PROD";
        min_advance_hours = 24;
        order = length e.items;
        enabled = true;
      })
      e

unfoldable pub remove_stage : String → Editor StageItem → Editor StageItem
remove_stage id e =
    let next = filter (λ s. not (str_eq s.id id)) e.items in
    record {
      items = number_from 0 next;
      selected_id = if is_id id e.selected_id then first_id stage_id next else e.selected_id;
    }

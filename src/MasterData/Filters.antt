-- ===== src/MasterData/Filters.antt =====
-- master-data.jsx: FiltersEditor, with the text of a filter and its query.
use release_radar.Prelude.{
  suc, Bool, true, false, String, Option, none, some, List, [], ◌∷◌, ◌++◌, length, ltb,
  if◌then◌else◌,
}
use release_radar.Prelude.Text.{◌◇◌, join}
use release_radar.Prelude.Decimal.{decimal}
use release_radar.MasterData.{Editor, selected, update, add, remove}
use release_radar.MasterData.Lists.{toggle_in}

pub record FilterCriteria : Type 0 where
  pub products : List String
  pub types : List String
  pub stages : List String
  pub actors : List String
  pub statuses : List String

pub record FilterItem : Type 0 where
  pub id : String
  pub name : String
  pub description : String
  pub icon : String
  pub color : String
  pub pinned : Bool
  pub criteria : FilterCriteria

abbrev pub filter_id : FilterItem → String
filter_id f = f.id

abbrev pub no_criteria : FilterCriteria
no_criteria = record { products = []; types = []; stages = []; actors = []; statuses = [] }

abbrev pub filters_init : List FilterItem
filters_init =
    record {
      id = "f-1";
      name = "My active rollouts";
      description = "Rollouts where I'm in the executing pair, status active or scheduled.";
      icon = "rollout";
      color = "#7c8cff";
      pinned = true;
      criteria = record no_criteria { actors = "luc" ∷ []; statuses = "scheduled" ∷ "active" ∷ [] };
    }
    ∷ record {
      id = "f-2";
      name = "Hotfixes only";
      description =
          "All hotfix-type rollouts across products. Useful when the master branch is locked.";
      icon = "warn";
      color = "#ef4444";
      pinned = true;
      criteria = record no_criteria { types = "tms-ssp-hf" ∷ "operator-hf" ∷ [] };
    }
    ∷ record {
      id = "f-3";
      name = "Frankfurt brokers";
      description = "Anything touching operator or concentrator on the Frankfurt region.";
      icon = "bolt";
      color = "#5eead4";
      pinned = false;
      criteria = record no_criteria {
        products = "operator" ∷ "concentrator" ∷ [];
        stages = "prod1" ∷ [];
      };
    }
    ∷ record {
      id = "f-4";
      name = "Blocked / awaiting";
      description = "Rollouts blocked by a lock or paused.";
      icon = "lock";
      color = "#fbbf24";
      pinned = false;
      criteria = record no_criteria { statuses = "blocked" ∷ [] };
    }
    ∷ []

pub data CriteriaKey : Type 0 where
  products types stages actors statuses : CriteriaKey

abbrev pub get : CriteriaKey → FilterCriteria → List String
get products c = c.products
get types c = c.types
get stages c = c.stages
get actors c = c.actors
get statuses c = c.statuses

abbrev pub put : CriteriaKey → List String → FilterCriteria → FilterCriteria
put products xs c = record c { products = xs }
put types xs c = record c { types = xs }
put stages xs c = record c { stages = xs }
put actors xs c = record c { actors = xs }
put statuses xs c = record c { statuses = xs }

abbrev pub with_criteria : FilterCriteria → FilterItem → FilterItem
with_criteria c f = record f { criteria = c }

-- `toggleIn`: without a selected filter there is no form to call it.
abbrev pub toggle_selected :
    CriteriaKey → String → Option FilterItem → Editor FilterItem → Editor FilterItem
toggle_selected key v none e = e
toggle_selected key v (some f) e =
    update filter_id (with_criteria (put key (toggle_in (get key f.criteria) v) f.criteria)) e

unfoldable pub toggle_criterion : CriteriaKey → String → Editor FilterItem → Editor FilterItem
unfolding selected
toggle_criterion key v e = toggle_selected key v (selected filter_id e) e

abbrev pub new_filter : String → FilterItem
new_filter id = record {
  id = id;
  name = "New filter";
  description = "";
  icon = "timeline";
  color = "#7c8cff";
  pinned = false;
  criteria = no_criteria;
}

unfoldable pub add_filter : String → Editor FilterItem → Editor FilterItem
unfolding add
add_filter id e = add filter_id (new_filter id) e

unfoldable pub remove_filter : String → Editor FilterItem → Editor FilterItem
unfolding remove
remove_filter id e = remove filter_id id e

-- "2 products", for a list that is not empty.
abbrev pub part : String → String → List String → List String
part word plural [] = []
part word plural (x ∷ xs) =
    (decimal (suc (length xs)) ◇ " " ◇ word ◇ (if ltb 1 (suc (length xs)) then plural else "")) ∷ []

abbrev pub parts_text : List String → String
parts_text [] = "no restrictions"
parts_text (p ∷ parts) = join " · " (p ∷ parts)

unfoldable pub filter_summary : FilterItem → String
filter_summary f = parts_text (
    part "product" "s" f.criteria.products
    ++ part "type" "s" f.criteria.types
    ++ part "stage" "s" f.criteria.stages
    ++ part "actor" "s" f.criteria.actors
    ++ part "status" "es" f.criteria.statuses)

abbrev pub bit : String → List String → List String
bit word [] = []
bit word (x ∷ xs) = (word ◇ ":" ◇ join "," (x ∷ xs)) ∷ []

abbrev pub bits_text : List String → String
bits_text [] = "*"
bits_text (b ∷ bits) = join " AND " (b ∷ bits)

unfoldable pub filter_to_query : FilterItem → String
filter_to_query f = bits_text (
    bit "product" f.criteria.products
    ++ bit "type" f.criteria.types
    ++ bit "stage" f.criteria.stages
    ++ bit "actor" f.criteria.actors
    ++ bit "status" f.criteria.statuses)

-- ===== src/MasterData/Products.antt =====
-- master-data.jsx: the products editor with its defaults, and what a new item of each editor is.
use text.Mathlib.Text.{◌==◌ as str_eq}
use release_radar.Prelude.{◌%◌, Bool, false, not, String, List, [], ◌∷◌, map, length, if◌then◌else◌}
use release_radar.Prelude.Int.{pos}
use release_radar.Prelude.Text.{◌◇◌}
use release_radar.Rollout.{Product, Actor, readonly, RolloutType, manual}
use release_radar.Stage.{product_color}
use release_radar.Data.{MockLock, products}
use release_radar.MasterData.{Editor, init, add}
use release_radar.MasterData.Stages.{color_at}

pub record ProductItem : Type 0 where
  pub id : String
  pub name : String
  pub owner : String
  pub brokers : List String
  pub color : String
  pub description : String
  pub repo : String
  pub runbook : String
  pub default_pair : List String
  pub allowed_types : List String
  pub snow_required : Bool

abbrev pub product_id : ProductItem → String
product_id p = p.id

abbrev pub product_colors : List String
product_colors =
    "#a78bfa" ∷ "#5eead4" ∷ "#fbbf24" ∷ "#fb7185" ∷ "#7c8cff" ∷ "#34d399" ∷ "#f472b6" ∷ "#facc15"
    ∷ []

-- A value for each of the four products, and one for the others.
abbrev pub by_product {ℓ} : {A : Type ℓ} → A → A → A → A → A → String → A
by_product operator concentrator monalesy microservices other id =
    if str_eq id "operator"
    then operator
    else if str_eq id "concentrator"
    then concentrator
    else if str_eq id "monalesy"
    then monalesy
    else if str_eq id "microservices"
    then microservices
    else other

abbrev pub default_product_description : String → String
default_product_description =
    by_product
      "Solace + Oracle operator. Manages broker lifecycle and per-tenant configuration on the TMS platform."
      "TLS-terminating gateway in front of every broker pair."
      "Tenant-facing monitoring + analytics dashboard."
      "Collection of small TMS-SSP services (frontend, appluser, monitoring, eks-info, …)." ""

abbrev pub default_repo : String → String
default_repo =
    by_product "git@github.example/tms-platform/operator"
      "git@github.example/tms-platform/concentrator" "git@github.example/tms-platform/monalesy"
      "git@github.example/tms-platform/microservices" ""

abbrev pub default_runbook : String → String
default_runbook id = "https://docs.example/runbooks/" ◇ id

abbrev pub default_pair_for : String → List String
default_pair_for =
    by_product ("luc" ∷ "hen" ∷ []) ("mira" ∷ "tomas" ∷ []) ("ravi" ∷ []) ("luc" ∷ "ravi" ∷ []) []

abbrev pub default_types_for : String → List String
default_types_for =
    by_product ("operator-feature" ∷ "operator-hf" ∷ []) ("concentrator-mod" ∷ [])
      ("monalesy-feature" ∷ "monalesy-patch" ∷ []) ("tms-ssp-nc" ∷ "tms-ssp-c" ∷ "tms-ssp-hf" ∷ [])
      []

unfoldable pub product_item : Product → ProductItem
unfolding product_color
product_item p = record {
  id = p.id;
  name = p.name;
  owner = p.owner;
  brokers = p.brokers;
  color = product_color p.id;
  description = default_product_description p.id;
  repo = default_repo p.id;
  runbook = default_runbook p.id;
  default_pair = default_pair_for p.id;
  allowed_types = default_types_for p.id;
  snow_required = not (str_eq p.id "microservices");
}

unfoldable pub products_editor : Editor ProductItem
unfolding init product_item
products_editor = init product_id (map product_item products)

unfoldable pub add_product : String → Editor ProductItem → Editor ProductItem
unfolding add
add_product id e =
    add product_id
      (record {
        id = id;
        name = "new product";
        owner = "Team —";
        brokers = [];
        color = color_at product_colors (length e.items % 8);
        description = "";
        repo = "";
        runbook = "";
        default_pair = [];
        allowed_types = [];
        snow_required = false;
      })
      e

-- The new items of the other editors.
abbrev pub new_type : String → RolloutType
new_type id = record {
  id = id;
  name = "new rollout type";
  short = "new";
  tone = "neutral";
  cascade_plan = record { stage = "non-prod"; delay_hours = 0 } ∷ [];
  announce = "";
  rules = [];
  tasks = [];
}

abbrev pub new_lock : String → MockLock
new_lock id = record {
  id = id;
  title = "New lock";
  description = "";
  contact = "—";
  start_offset = pos 0;
  end_offset = pos 0;
  products = "all" ∷ [];
  kind = manual;
}

-- An actor of the editor: that of the table, with an address and a department.
pub record ActorItem : Type 0 where
  pub actor : Actor
  pub email : String
  pub department : String

abbrev pub actor_item : Actor → ActorItem
actor_item a = record {
  actor = a;
  email = a.id ◇ "@tms-platform.example";
  department = "IT-DA-EXT";
}

abbrev pub new_actor : String → ActorItem
new_actor id = record {
  actor = record { id = id; name = "New Actor"; initials = "NA"; hue = 220; role = readonly };
  email = "";
  department = "";
}

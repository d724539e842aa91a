-- ===== src/MasterData.antt =====
-- design/project/master-data.jsx: the editors of the master data. Each of them keeps a list of items
-- and the id of the selected one; what they share is this file, over the items' type and id.
-- `Date.now()` in a new id is an argument.
pub mod Selection
pub mod Store
pub mod Lists
pub mod Stages
pub mod Retry
pub mod Products
pub mod Editors
pub mod Filters
pub mod Channels
mod Tests
use text.Mathlib.Text.{◌==◌ as str_eq}
use release_radar.Prelude.{
  ℕ, Bool, true, false, not, String, Option, none, some, List, [], ◌∷◌, ◌++◌, map, filter, find,
  if◌then◌else◌,
}

pub record Editor (A : Type 0) : Type 0 where
  pub items : List A
  pub selected_id : Option String

abbrev pub is_some {ℓ} : {A : Type ℓ} → Option A → Bool
is_some none = false
is_some (some a) = true

abbrev pub is_id : String → Option String → Bool
is_id id none = false
is_id id (some other) = str_eq id other

module _ {A : Type 0} (id_of : A → String) where
  -- `items[0]?.id || null`
  abbrev pub first_id : List A → Option String
  first_id [] = none
  first_id (x ∷ xs) = some (id_of x)

  unfoldable pub init : List A → Editor A
  init items = record { items = items; selected_id = first_id items }

  unfoldable pub selected : Editor A → Option A
  selected e = find (λ x. is_id (id_of x) e.selected_id) e.items

  unfoldable pub update : (A → A) → Editor A → Editor A
  update patch e = record e {
    items = map (λ x. if is_id (id_of x) e.selected_id then patch x else x) e.items;
  }

  unfoldable pub add : A → Editor A → Editor A
  add next e = record { items = e.items ++ next ∷ []; selected_id = some (id_of next) }

  unfoldable pub remove : String → Editor A → Editor A
  remove id e =
      let next = filter (λ x. not (str_eq (id_of x) id)) e.items in
      record {
        items = next;
        selected_id = if is_id id e.selected_id then first_id next else e.selected_id;
      }

  -- A click on an item of the list.
  unfoldable pub select : A → Editor A → Editor A
  select x e = record e { selected_id = some (id_of x) }

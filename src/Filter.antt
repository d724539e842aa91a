-- ===== src/Filter.antt =====
-- design/project/timeline.jsx: the filter of the timeline, and the popover that edits it.
pub mod Laws
mod Tests
use text.Mathlib.Text.{◌==◌ as str_eq}
use release_radar.Prelude.{
  ℕ, ◌+◌, ◌==◌, Bool, true, false, not, ◌&&◌, String, List, [], ◌∷◌, ◌++◌, length, filter, any,
  includes, without, if◌then◌else◌,
}

pub record Stage : Type 0 where
  pub env : String
  pub status : String

-- What the filter reads of a rollout.
pub record Rollout : Type 0 where
  pub product : String
  pub type_id : String
  pub pair : List String
  pub stages : List Stage

pub record Criteria : Type 0 where
  pub products : List String
  pub types : List String
  pub statuses : List String
  pub actors : List String

abbrev pub empty_filter : Criteria
empty_filter = record { products = []; types = []; statuses = []; actors = [] }

-- `f.products.length`, as a condition.
abbrev pub is_set : List String → Bool
is_set [] = false
is_set (x ∷ xs) = true

unfoldable pub filter_match : Rollout → Criteria → Bool
filter_match rollout f =
    if is_set f.products && not (includes f.products rollout.product)
    then false
    else if is_set f.types && not (includes f.types rollout.type_id)
    then false
    else if is_set f.actors && not (any (λ p. includes f.actors p) rollout.pair)
    then false
    else not (is_set f.statuses && not (any (λ s. includes f.statuses s.status) rollout.stages))

pub data Key : Type 0 where
  products types statuses actors : Key

abbrev pub get : Key → Criteria → List String
get products f = f.products
get types f = f.types
get statuses f = f.statuses
get actors f = f.actors

abbrev pub put : Key → List String → Criteria → Criteria
put products xs f = record f { products = xs }
put types xs f = record f { types = xs }
put statuses xs f = record f { statuses = xs }
put actors xs f = record f { actors = xs }

unfoldable pub toggle_value : List String → String → List String
toggle_value xs v = if includes xs v then without xs v else xs ++ v ∷ []

-- The popover's actions.
unfoldable pub toggle : Key → String → Criteria → Criteria
toggle key v f = put key (toggle_value (get key f) v) f

-- A preset gives every list, so that nothing of `emptyFilter()` is left.
pub record Preset : Type 0 where
  pub id : String
  pub name : String
  pub criteria : Criteria

unfoldable pub apply_preset : Preset → Criteria → Criteria
apply_preset preset f = preset.criteria

unfoldable pub clear : Criteria → Criteria
clear f = empty_filter

unfoldable pub active_count : Criteria → ℕ
active_count f = length f.products + length f.types + length f.statuses + length f.actors

-- The rows that the timeline shows.
unfoldable pub filtered_rollouts : Criteria → List Rollout → List Rollout
unfolding filter_match
filtered_rollouts f rollouts = filter (λ r. filter_match r f) rollouts

-- ===== src/Routing.antt =====
-- design/project/app.jsx: the route in the address's hash, and the navigation of the prototype.
pub mod Hash
mod Tests
use text.Mathlib.Text.{◌==◌ as str_eq, starts_with}
use Prim.Native.String.{slice, len}
use release_radar.Prelude.{
  ℕ, Bool, true, false, String, Option, none, some, List, find, if◌then◌else◌,
}
use release_radar.Prelude.Text.{◌◇◌, is_empty}
use release_radar.Data.{MockRollout}

abbrev pub strip_hash : String → String
strip_hash h = if starts_with h "#" then slice h 1 (len h) else h

-- The id of the rollout that the hash names, if it names one.
unfoldable pub parse_hash : String → Option String
parse_hash hash =
    let h = strip_hash hash in
    if starts_with h "rollout/" then some (slice h (len "rollout/") (len h)) else none

-- `hash` is the address's; `hash_route` what the application knows of it.
pub record App : Type 0 where
  pub nav : String
  pub open_id : Option String
  pub create_open : Bool
  pub lock_open : Bool
  pub hash : String
  pub hash_route : Option String

abbrev pub new_app : String → App
new_app hash = record {
  nav = "timeline";
  open_id = none;
  create_open = false;
  lock_open = false;
  hash = hash;
  hash_route = parse_hash hash;
}

unfoldable pub on_hash : App → App
on_hash a = record a { hash_route = parse_hash a.hash }

abbrev pub find_rollout : List MockRollout → Option String → Option MockRollout
find_rollout rollouts none = none
find_rollout rollouts (some id) = find (λ r. str_eq r.id id) rollouts

unfoldable pub open_rollout : List MockRollout → App → Option MockRollout
open_rollout rollouts a = find_rollout rollouts a.open_id

unfoldable pub detail_rollout : List MockRollout → App → Option MockRollout
detail_rollout rollouts a = find_rollout rollouts a.hash_route

-- The event `hashchange` follows a change of the hash.
unfoldable pub open_full_page : String → App → App
open_full_page id a =
    if is_empty id then a else record a { hash = "#" ◇ ("rollout/" ◇ id); open_id = none }

-- `pushState` fires no event.
unfoldable pub close_detail_page : App → App
close_detail_page a = record a { hash = ""; hash_route = none }

unfoldable pub on_nav : String → App → App
unfolding close_detail_page
on_nav n a = record (close_detail_page a) { nav = n }

-- What the main part shows: a rollout's page, or the view of the navigation.
pub data Screen : Type 0 where
  page : MockRollout → Screen
  timeline list data_ docs locks blank : Screen

abbrev pub view_of : String → Screen
view_of nav =
    if str_eq nav "timeline"
    then timeline
    else if str_eq nav "list"
    then list
    else if str_eq nav "data"
    then data_
    else if str_eq nav "docs"
    then docs
    else if str_eq nav "locks"
    then locks
    else blank

abbrev pub screen_of : Option MockRollout → String → Screen
screen_of none nav = view_of nav
screen_of (some r) nav = page r

unfoldable pub screen : List MockRollout → App → Screen
unfolding detail_rollout
screen rollouts a = screen_of (detail_rollout rollouts a) a.nav

abbrev pub drawer_of : Option MockRollout → Option MockRollout → Option MockRollout
drawer_of none shown = shown
drawer_of (some r) shown = none

-- The rollout in the drawer beside it.
unfoldable pub drawer : List MockRollout → App → Option MockRollout
unfolding detail_rollout open_rollout
drawer rollouts a = drawer_of (detail_rollout rollouts a) (open_rollout rollouts a)

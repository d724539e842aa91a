-- ===== src/Shell.antt =====
-- frontend/src/app/shared/layout/shell/shell.component.ts: the frame of every page, with its entries, the
-- status of the live channel and the buttons that open a dialog.
pub mod Focus
mod Tests
use release_radar.Prelude.{
  Bool, true, false, not, String, Option, none, some, List, [], ◌∷◌, if◌then◌else◌,
}
use text.Mathlib.Text.{◌==◌ as str_eq}
use release_radar.Live.{LiveStatus}
use release_radar.Auth.{Session, can_edit, Dialog, open_rollout, open_lock}

pub record NavItem : Type 0 where
  pub id : String
  pub label : String
  pub link : String

abbrev pub nav : List NavItem
nav =
    record { id = "timeline"; label = "Timeline"; link = "/timeline" }
    ∷ record { id = "list"; label = "Rollouts"; link = "/list" }
    ∷ record { id = "locks"; label = "Locks"; link = "/locks" }
    ∷ record { id = "data"; label = "Master Data"; link = "/data" }
    ∷ record { id = "contacts"; label = "Contacts"; link = "/contacts" }
    ∷ record { id = "docs"; label = "API & MCP"; link = "/docs" }
    ∷ []

unfoldable pub live_label : LiveStatus → String
live_label LiveStatus.live = "Live"
live_label LiveStatus.reconnecting = "Reconnecting…"
live_label LiveStatus.connecting = "Connecting…"
live_label LiveStatus.offline = "Offline"

unfoldable pub on_create_rollout : Session → Dialog → Dialog
unfolding open_rollout
on_create_rollout s d = if not (can_edit s) then d else open_rollout d

unfoldable pub on_create_lock : Session → Dialog → Dialog
unfolding open_lock
on_create_lock s d = if not (can_edit s) then d else open_lock none d

-- The routes of the application, on the segments of a path. `rollout` takes the id of one.
pub data Page : Type 0 where
  timeline_page list_page locks_page data_page contacts_page docs_page : Page
  rollout_page : (id : String) → Page

abbrev pub page_of : String → Option Page
page_of segment =
    if str_eq segment "timeline"
    then some timeline_page
    else if str_eq segment "list"
    then some list_page
    else if str_eq segment "locks"
    then some locks_page
    else if str_eq segment "data"
    then some data_page
    else if str_eq segment "contacts"
    then some contacts_page
    else if str_eq segment "docs"
    then some docs_page
    else none

-- No path is redirected to the timeline; a path that no route matches has no page.
unfoldable pub route : List String → Option Page
route [] = some timeline_page
route (segment ∷ []) = page_of segment
route (segment ∷ id ∷ []) = if str_eq segment "rollout" then some (rollout_page id) else none
route (segment ∷ id ∷ more ∷ rest) = none

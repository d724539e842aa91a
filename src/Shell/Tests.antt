-- ===== src/Shell/Tests.antt =====
-- The frame of the pages and the focus trap, and the theorem there.
use text.Mathlib.Text.{◌==◌ as str_eq}
use release_radar.Prelude.{
  ◌≡◌, refl, true, false, String, none, some, List, [], ◌∷◌, map, if◌then◌else◌,
}
use release_radar.Live.{LiveStatus}
use release_radar.Auth.{open_rollout, open_lock}
use release_radar.Shell.{
  live_label, on_create_rollout, on_create_lock, route, timeline_page, list_page, rollout_page,
}
use release_radar.Shell.Focus.{focusable, on_tab, on_shift_tab, on_destroy}
use release_radar.Shell.Focus.Cycle.{IsIn, tab, shift_tab, presses, presses-IsIn}

shell_code : Unit {0}
unfolding live_label on_create_rollout on_create_lock route open_rollout open_lock focusable on_tab
    on_shift_tab on_destroy
shell_code = tt

labels : map live_label (LiveStatus.live ∷ LiveStatus.offline ∷ []) ≡ "Live" ∷ "Offline" ∷ []
unfolding shell_code
labels = refl

routes :
    (route [] ≡ some timeline_page)
    × (route ("list" ∷ []) ≡ some list_page)
    × (route ("rollout" ∷ "r1" ∷ []) ≡ some (rollout_page "r1"))
    × (route ("rollout" ∷ []) ≡ none)
unfolding shell_code
routes = (refl, refl, refl, refl)

-- A visitor's click opens nothing.
visitor :
    on_create_rollout
      (record { user = none; loaded = true })
      (record { kind = none; lock_edit = none })
    ≡ record { kind = none; lock_edit = none }
unfolding shell_code
visitor = refl

abbrev elements : List String
elements = "title" ∷ "close" ∷ "submit" ∷ []

shown :
    focusable (
      record { name = "title"; visible = true }
      ∷ record { name = "hidden"; visible = false }
      ∷ record { name = "close"; visible = true }
      ∷ [])
    ≡ "title" ∷ "close" ∷ []
unfolding shell_code
shown = refl

-- A browser that goes on to the address bar after the last element, and before the first.
abbrev forward : String → String
forward a = if str_eq a "title" then "close" else if str_eq a "close" then "submit" else "address"

abbrev backward : String → String
backward a = if str_eq a "submit" then "close" else if str_eq a "close" then "title" else "address"

wraps : presses forward backward elements (tab ∷ tab ∷ tab ∷ shift_tab ∷ []) "title" ≡ "submit"
unfolding shell_code
wraps = refl

presses-IsIn_example :
    IsIn elements (presses forward backward elements (tab ∷ shift_tab ∷ shift_tab ∷ []) "title")
presses-IsIn_example =
    presses-IsIn forward backward elements (tab ∷ shift_tab ∷ shift_tab ∷ []) "title"
      (refl, refl, (refl, refl, tt)) refl

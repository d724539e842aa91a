-- ===== src/Shell/Focus.antt =====
-- frontend/src/app/shared/a11y/focus-trap.directive.ts: the focus inside a dialog. An element is its
-- name; what the browser does on a key that no handler stops is a parameter.
pub mod Cycle
use text.Mathlib.Text.{◌==◌ as str_eq}
use release_radar.Prelude.{
  Bool, true, false, String, Option, none, some, List, [], ◌∷◌, filter, map, if◌then◌else◌,
}

pub record Element : Type 0 where
  pub name : String
  pub visible : Bool

-- `elements` are those that the selector finds, in the order of the document.
unfoldable pub focusable : List Element → List String
focusable elements = map (λ e. e.name) (filter (λ (e : Element). e.visible) elements)

abbrev pub last_of : String → List String → String
last_of x [] = x
last_of x (y ∷ ys) = last_of y ys

-- What the handler moves the focus to, after it has stopped the browser, if it does.
unfoldable pub on_tab : List String → String → Option String
on_tab [] active = none
on_tab (x ∷ xs) active = if str_eq active (last_of x xs) then some x else none

unfoldable pub on_shift_tab : List String → String → Option String
on_shift_tab [] active = none
on_shift_tab (x ∷ xs) active = if str_eq active x then some (last_of x xs) else none

abbrev pub or_browser : Option String → String → String
or_browser none by_browser = by_browser
or_browser (some x) by_browser = x

-- The focus after the key, with what the browser itself would focus.
abbrev pub press : (String → String) → List String → String → String
press forward f active = or_browser (on_tab f active) (forward active)

abbrev pub press_shift : (String → String) → List String → String → String
press_shift backward f active = or_browser (on_shift_tab f active) (backward active)

-- `ngOnDestroy`: the element that had the focus at the start has it again, if there was one.
unfoldable pub on_destroy : Option String → String → String
on_destroy none active = active
on_destroy (some return_to) active = return_to

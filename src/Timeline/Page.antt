-- ===== src/Timeline/Page.antt =====
-- design/project/timeline.jsx: TimelineView with its toolbar, the labels of its rows and the card of the
-- active locks, over whole days from TODAY. Texts of dates are left out.
pub mod Weeks
mod Tests
use Prim.Native.Char.{code}
use Prim.Native.String
use release_radar.Prelude.{
  ℕ, ◌+◌, ◌-◌, ◌*◌, ◌/◌, Bool, true, false, not, String, Option, none, some, List, [], ◌∷◌, length,
  map, filter, includes, max, ◌==◌, if◌then◌else◌,
}
use release_radar.Prelude.Int.{ℤ, pos, negsuc, ◌+ℤ◌, ◌-ℤ◌}
use release_radar.Prelude.Text.{join, ◌◇◌}
use release_radar.Calendar.{Day}
use release_radar.Data.{MockRollout, MockStage, MockLock, get_actor, get_product}
use release_radar.Data.Types.{get_type}
use release_radar.Filter
use release_radar.Filter.{Criteria, empty_filter, filter_match, active_count}
use release_radar.Rollout.{LockKind, manual, holiday, window, Actor, Product, RolloutType}
use release_radar.Timeline.{day_w, label_w, row_h}
use release_radar.Timeline.Prototype.{same_day, start_day, Pill, pills, cascades, lock_layer, Span}

pub record Page : Type 0 where
  pub offset : ℤ
  pub filter : Criteria
  pub filter_open : Bool
  pub days : ℕ

abbrev pub new_page : Page
new_page = record { offset = negsuc 2; filter = empty_filter; filter_open = false; days = 28 }

-- `mouse_down` says whether the mouse was inside the filter's popover.
pub data PageEvent : Type 0 where
  previous_week next_week resets : PageEvent
  sized : (client_width : ℕ) → PageEvent
  toggles_filter closes_filter : PageEvent
  changes_filter : Criteria → PageEvent
  mouse_down : (inside : Bool) → PageEvent

unfoldable pub on_page : PageEvent → Page → Page
on_page previous_week p = record p { offset = p.offset -ℤ pos 7 }
on_page next_week p = record p { offset = p.offset +ℤ pos 7 }
on_page resets p = record p { offset = negsuc 2 }
on_page (sized client_width) p = record p { days = max 7 ((client_width - label_w - 2) / day_w) }
on_page toggles_filter p = record p { filter_open = not p.filter_open }
on_page closes_filter p = record p { filter_open = false }
on_page (changes_filter f) p = record p { filter = f }
on_page (mouse_down inside) p = if inside then p else record p { filter_open = false }

unfoldable pub run_page : List PageEvent → Page → Page
unfolding on_page
run_page [] p = p
run_page (e ∷ es) p = run_page es (on_page e p)

-- What is drawn: the tracks of the rollouts that the filter keeps, and the locks over them.
pub record Track : Type 0 where
  pub rollout : MockRollout
  pub pills : List Pill
  pub connectors : List (Option (ℤ × ℤ))

abbrev pub track : ℤ → MockRollout → Track
unfolding pills cascades
track offset r = record {
  rollout = r;
  pills = pills offset r.stages;
  connectors = cascades offset r.stages;
}

pub record Drawn : Type 0 where
  pub width : ℕ
  pub height : ℕ
  pub badge : Option ℕ
  pub tracks : List Track
  pub locks : List (MockLock × Span)

abbrev pub badge_of : ℕ → Option ℕ
badge_of n = if n == 0 then none else some n

-- What the filter reads of a rollout.
abbrev pub filtered : MockRollout → Filter.Rollout
filtered r = record {
  product = r.product;
  type_id = r.type_id;
  pair = r.pair;
  stages = map (λ (st : MockStage). record { env = st.env; status = st.status }) r.stages;
}

unfoldable pub draw : List MockRollout → List MockLock → Page → Drawn
unfolding filter_match active_count pills cascades lock_layer
draw rollouts locks p =
    let kept = filter (λ r. filter_match (filtered r) p.filter) rollouts in
    record {
      width = p.days * day_w;
      height = length kept * row_h;
      badge = badge_of (active_count p.filter);
      tracks = map (track p.offset) kept;
      locks = lock_layer locks p.offset p.days;
    }

-- `name.split(" ")[0]`
unfoldable pub first_word : String → String
first_word String.[] = ""
first_word (String.◌∷◌ c s) =
    let rest = first_word s in if code c == 32 then "" else String.◌∷◌ c rest

abbrev pub put_name : Option Actor → Option (List String) → Option (List String)
unfolding first_word
put_name (some a) (some names) = some (first_word a.name ∷ names)
put_name (some a) none = none
put_name none names = none

-- An id without an actor throws, and there is no label.
abbrev pub first_names : List String → Option (List String)
first_names [] = some []
first_names (id ∷ ids) = put_name (get_actor id) (first_names ids)

pub record RowLabel : Type 0 where
  pub product : String
  pub type_short : String
  pub title : String
  pub actors : String
  pub is_focused : Bool

abbrev pub label_with :
    MockRollout
    → Bool
    → Option Product
    → Option RolloutType
    → Option (List String)
    → Option RowLabel
label_with r focused (some p) (some t) (some names) = some (record {
  product = p.name;
  type_short = t.short;
  title = r.title;
  actors = join " · " names;
  is_focused = focused;
})
label_with r focused (some p) (some t) none = none
label_with r focused (some p) none names = none
label_with r focused none t names = none

unfoldable pub row_label : MockRollout → Bool → Option RowLabel
unfolding first_word
row_label r focused =
    label_with r focused (get_product r.product) (get_type r.type_id) (first_names r.pair)

-- An item of the card of the locks: the last day is there if it is not the first one.
pub record LockItem : Type 0 where
  pub tone : String
  pub badge : String
  pub title : String
  pub description : String
  pub first_day : Day
  pub last_day : Option Day
  pub contact : String
  pub products : String

abbrev pub is_manual : LockKind → Bool
is_manual manual = true
is_manual holiday = false
is_manual window = false

unfoldable pub lock_item : MockLock → LockItem
lock_item l = record {
  tone = if is_manual l.kind then "danger" else "warn";
  badge = if is_manual l.kind then "MANUAL" else "HOLIDAY";
  title = l.title;
  description = l.description;
  first_day = start_day l.start_offset;
  last_day =
      if same_day (start_day l.start_offset) (start_day l.end_offset)
      then none
      else some (start_day l.end_offset);
  contact = l.contact;
  products = if includes l.products "all" then "all products" else join ", " l.products;
}

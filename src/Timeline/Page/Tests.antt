-- ===== src/Timeline/Page/Tests.antt =====
-- The prototype's timeline of the mock data, and the theorem there.
use release_radar.Prelude.{◌≡◌, refl, arith, false, none, some, List, [], ◌∷◌, map}
use release_radar.Prelude.Int.{negsuc, ◌+ℤ◌, ◌-ℤ◌, ◌*ℤ◌}
use release_radar.Calendar.{days_after, days_before, next, previous, month_length}
use release_radar.Data.{MockLock, get_actor, get_product, locks_raw}
use release_radar.Data.Rollouts.{rollouts}
use release_radar.Data.Types.{get_type}
use release_radar.Filter.{empty_filter, filter_match, active_count}
use release_radar.Timeline.{pill_left, cascade}
use release_radar.Timeline.Prototype.{
  lock_span, is_drawn, lock_layer, pill_width, stage_index, pills, cascades,
}
use release_radar.Timeline.Page.{
  Page, PageEvent, new_page, previous_week, next_week, sized, toggles_filter, changes_filter,
  mouse_down, on_page, run_page, draw, first_word, row_label, lock_item,
}
use release_radar.Timeline.Page.Weeks.{IsValid, run_page-IsValid}

timeline_page_code : Unit {0}
unfolding on_page run_page draw first_word row_label lock_item get_actor get_product get_type
    filter_match active_count pill_left cascade lock_span is_drawn lock_layer pill_width stage_index
    pills cascades ◌+ℤ◌ ◌-ℤ◌ ◌*ℤ◌ days_after days_before next previous month_length
timeline_page_code = tt

-- The filter is opened, set, and closed by a click beside it.
abbrev events : List PageEvent
events =
    sized 1000
    ∷ next_week
    ∷ previous_week
    ∷ previous_week
    ∷ toggles_filter
    ∷ changes_filter (record empty_filter { products = "operator" ∷ [] })
    ∷ mouse_down false
    ∷ []

abbrev filtered_page : Page
filtered_page = record {
  offset = negsuc 9;
  filter = record empty_filter { products = "operator" ∷ [] };
  filter_open = false;
  days = 12;
}

filters : run_page events new_page ≡ filtered_page
unfolding timeline_page_code
filters = refl

drawn :
    ((draw rollouts locks_raw new_page).badge ≡ none)
    × ((draw rollouts locks_raw filtered_page).badge ≡ some 1)
    × ((draw rollouts locks_raw new_page).height ≡ 448)
unfolding timeline_page_code
drawn = (refl, refl, refl)

-- A lock of one day has no last day.
lock_texts :
    map (λ (l : MockLock). (lock_item l).badge) locks_raw ≡ "HOLIDAY" ∷ "MANUAL" ∷ "HOLIDAY" ∷ []
unfolding timeline_page_code
lock_texts = refl

run_page-IsValid_example : IsValid (run_page events new_page)
run_page-IsValid_example = run_page-IsValid events new_page ((0, 0, refl), omega arith)

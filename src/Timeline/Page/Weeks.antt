-- ===== src/Timeline/Page/Weeks.antt =====
-- timeline.jsx: where the timeline can begin, and how many days it shows.
use release_radar.Prelude.{ℕ, ◌+◌, ◌*◌, ◌≤◌, ◌≡◌, arith, List, [], ◌∷◌, true, false, refl}
use release_radar.Prelude.Int.{ℤ, pos_part, neg_part, int_laws}
use release_radar.Timeline.Page.{
  Page, PageEvent, previous_week, next_week, resets, sized, toggles_filter, closes_filter,
  changes_filter, mouse_down, on_page, run_page,
}

-- Three days before some week's beginning, as it is three days before TODAY: a and b are the weeks
-- back and forward.
abbrev pub IsWeekly : ℤ → Type 0
IsWeekly o = (a : ℕ) × (b : ℕ) × (pos_part o + 3 + 7 * a ≡ neg_part o + 7 * b)

abbrev pub IsValid : Page → Type 0
IsValid p = IsWeekly p.offset × (7 ≤ p.days)

on_page-IsValid : (e : PageEvent) (p : Page) → IsValid p → IsValid (on_page e p)
unfolding on_page
on_page-IsValid previous_week p ((a, b, h), k) = ((a + 1, b, omega int_laws), k)
on_page-IsValid next_week p ((a, b, h), k) = ((a, b + 1, omega int_laws), k)
on_page-IsValid resets p (h, k) = ((0, 0, refl), k)
on_page-IsValid (sized client_width) p (h, k) = (h, omega arith)
on_page-IsValid toggles_filter p h = h
on_page-IsValid closes_filter p h = h
on_page-IsValid (changes_filter f) p h = h
on_page-IsValid (mouse_down true) p h = h
on_page-IsValid (mouse_down false) p h = h

-- Whatever is done on the timeline, it begins a whole number of weeks from three days before TODAY, and
-- shows seven days or more, if it was so before.
pub run_page-IsValid : (es : List PageEvent) (p : Page) → IsValid p → IsValid (run_page es p)
unfolding run_page
run_page-IsValid [] p h = h
run_page-IsValid (e ∷ es) p h = run_page-IsValid es (on_page e p) (on_page-IsValid e p h)

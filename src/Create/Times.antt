-- ===== src/Create/Times.antt =====
-- create-lock-modal.component.ts: the texts of the form's times, and the kinds that it offers.
use release_radar.Prelude.{ℕ, String, List, [], ◌∷◌}
use release_radar.Prelude.Text.{◌◇◌}
use release_radar.Calendar.{Day, days_after}
use release_radar.Rollout.{LockKind, manual, holiday, window}
use release_radar.Schedule.{pad, key}

abbrev pub kinds : List (LockKind × String)
kinds = (manual, "Manual (master bug)") ∷ (holiday, "Holiday") ∷ (window, "Custom window") ∷ []

-- A moment as local time gives it, up to its minute.
pub record LocalTime : Type 0 where
  pub day : Day
  pub hours : ℕ
  pub minutes : ℕ

unfoldable pub local_input : LocalTime → String
unfolding key pad
local_input t = key t.day ◇ "T" ◇ pad t.hours ◇ ":" ◇ pad t.minutes

unfoldable pub default_start : LocalTime → String
unfolding local_input
default_start now = local_input (record now { minutes = 0 })

unfoldable pub default_end : LocalTime → String
unfolding local_input
default_end now = local_input (record now { day = days_after 1 now.day; minutes = 0 })

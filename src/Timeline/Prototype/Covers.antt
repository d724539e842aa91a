-- ===== src/Timeline/Prototype/Covers.antt =====
-- timeline.jsx: the columns that a lock lies over.
use release_radar.Prelude.{ℕ, ◌+◌, ◌*◌}
use release_radar.Prelude.Int.{ℤ, pos, ◌+ℤ◌, ◌≤ℤ◌}
use release_radar.Timeline.{day_w}

-- A column lies wholly under the span.
abbrev pub Covers : ℤ → ℤ → ℕ → Type 0
Covers left width i = (left ≤ℤ pos (i * day_w)) × (pos (i * day_w + day_w) ≤ℤ left +ℤ width)

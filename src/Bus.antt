-- ===== src/Bus.antt =====
-- frontend/src/app/core/refresh.bus.ts: the counter that every view's fetches hang on.
use release_radar.Prelude.{ℕ, ◌+◌, List, [], ◌∷◌}

-- `emitted` is what a view that was there from the beginning has seen of `tick$`, newest first;
-- `startWith(0)` gives it the 0.
pub record Bus : Type 0 where
  pub n : ℕ
  pub emitted : List ℕ

abbrev pub new_bus : Bus
new_bus = record { n = 0; emitted = 0 ∷ [] }

unfoldable pub bump : Bus → Bus
bump b = record { n = b.n + 1; emitted = (b.n + 1) ∷ b.emitted }

-- ===== src/Stage/Cascade.antt =====
-- stage.ts: the dates of a cascade.
use release_radar.Prelude.{ℕ, ◌+◌, ◌*◌, ◌≤◌, ◌≡◌, refl, ap₂, List, [], ◌∷◌, map, arith}
use release_radar.Stage.{
  CascadeStage, PlannedStage, ms_per_hour, hours_to_ns, ns_to_hours, entries, place, cascade_stages,
}

-- A duration in whole hours survives the way through nanoseconds.
pub ns_to_hours-hours_to_ns : (h : ℕ) → ns_to_hours (hours_to_ns h) ≡ h
unfolding ns_to_hours hours_to_ns
ns_to_hours-hours_to_ns h = omega arith

-- No delay is below the one before it.
abbrev pub Ascends : ℕ → List CascadeStage → Type 0
Ascends d [] = Unit
Ascends d (p ∷ plan) = (d ≤ p.delay_hours) × Ascends p.delay_hours plan

abbrev pub Follows : ℕ → List PlannedStage → Type 0
Follows t [] = Unit
Follows t (s ∷ rest) = (t ≤ s.start_at) × Follows s.start_at rest

map-place-Follows :
    (base duration d : ℕ) (plan : List CascadeStage)
    → Ascends d plan
    → Follows (base + d * ms_per_hour) (map (place base duration) plan)
map-place-Follows base duration d [] h = tt
map-place-Follows base duration d (p ∷ plan) (h, hs) =
    (omega arith, map-place-Follows base duration p.delay_hours plan hs)

-- The stages of a plan whose delays do not fall follow one another in time, the first at the
-- anchor or later.
pub cascade_stages-Follows :
    (base hours : ℕ) (plan : List CascadeStage)
    → Ascends 0 plan
    → Follows base (cascade_stages base plan hours)
unfolding cascade_stages
cascade_stages-Follows base hours [] h = (omega arith, tt)
cascade_stages-Follows base hours (p ∷ plan) (h, hs) =
    (omega arith, map-place-Follows base (hours_to_ns hours) p.delay_hours plan hs)

abbrev pub postpone : ℕ → PlannedStage → PlannedStage
postpone d s = record s { start_at = s.start_at + d }

place-postpone :
    (base duration d : ℕ) (p : CascadeStage)
    → place (base + d) duration p ≡ postpone d (place base duration p)
place-postpone base duration d p = ground arith

map-place-postpone :
    (base duration d : ℕ) (plan : List CascadeStage)
    → map (place (base + d) duration) plan ≡ map (postpone d) (map (place base duration) plan)
map-place-postpone base duration d [] = refl
map-place-postpone base duration d (p ∷ plan) =
    ap₂ ◌∷◌ (place-postpone base duration d p) (map-place-postpone base duration d plan)

-- A later anchor moves the whole cascade by as much, and changes nothing else.
pub cascade_stages-postpone :
    (base d hours : ℕ) (plan : List CascadeStage)
    → cascade_stages (base + d) plan hours ≡ map (postpone d) (cascade_stages base plan hours)
unfolding cascade_stages
cascade_stages-postpone base d hours plan =
    map-place-postpone base (hours_to_ns hours) d (entries plan)

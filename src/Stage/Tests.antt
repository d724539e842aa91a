-- ===== src/Stage/Tests.antt =====
-- Stages, delays and a cascade, and the theorems there.
use release_radar.Prelude.{ℕ, ◌≡◌, refl, String, none, some, List, [], ◌∷◌, map, arith}
use release_radar.Prelude.Decimal.{decimal}
use release_radar.Prelude.Dict.{lookup, insert}
use release_radar.Stage.{
  StageMeta, get_stage, product_color, format_delay, hours_to_ns, ns_to_hours, CascadeStage,
  cascade_stages, note_channel, note_all, derive_announce_policy,
}
use release_radar.Stage.Policy.{longest, lookup-note_all}
use release_radar.Stage.Cascade.{Ascends}

stage_code : Unit {0}
unfolding get_stage product_color format_delay hours_to_ns ns_to_hours cascade_stages note_channel
    derive_announce_policy lookup insert decimal
stage_code = tt

abbrev initials : String → String
initials s = s

abbrev at : String → ℕ → CascadeStage
at stage delay = record { stage = stage; delay_hours = delay }

-- The plan of `operator-default`.
abbrev plan : List CascadeStage
plan = at "non-prod" 0 ∷ at "prod1" 168 ∷ at "prod2" 336 ∷ []

delays :
    (format_delay 0 ≡ "0h")
    × (format_delay 4 ≡ "4h")
    × (format_delay 168 ≡ "7d")
    × (format_delay 30 ≡ "1d 6h")
unfolding stage_code
delays = (refl, refl, refl, refl)

policy : derive_announce_policy initials plan ≡ "TMS_NP ≥ 1h • TMS_PROD ≥ 14d"
unfolding stage_code
policy = refl

abbrev metas : List StageMeta
metas = map (λ (p : CascadeStage). get_stage initials p.stage) plan

lookup-note_all_example :
    lookup "TMS_PROD" (note_all metas []) ≡ longest "TMS_PROD" (lookup "TMS_PROD" []) metas
lookup-note_all_example = lookup-note_all "TMS_PROD" metas []

longest_notice : longest "TMS_PROD" none metas ≡ some 336
unfolding stage_code
longest_notice = refl

plan-Ascends : Ascends 0 plan
plan-Ascends = omega arith

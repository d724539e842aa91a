-- ===== src/Filter/Tests.antt =====
-- The timeline's filter on two rollouts, and the theorems there.
use release_radar.Prelude.{◌≡◌, ◌↔◌, refl, true, [], ◌∷◌}
use release_radar.Filter.{
  Rollout, empty_filter, filter_match, actors, toggle_value, toggle, Preset, apply_preset, clear,
  active_count, filtered_rollouts,
}
use release_radar.Filter.Laws.{Meets, filter_match_iff}

filter_code : Unit {0}
unfolding filter_match toggle_value toggle apply_preset clear active_count filtered_rollouts
filter_code = tt

abbrev operator : Rollout
operator = record {
  product = "operator";
  type_id = "operator-default";
  pair = "LM" ∷ "SK" ∷ [];
  stages = record { env = "prod1"; status = "scheduled" } ∷ [];
}

abbrev monalesy : Rollout
monalesy = record operator { product = "monalesy" }

-- The preset "Operator only" of timeline.jsx.
abbrev operator_only : Preset
operator_only = record {
  id = "op";
  name = "Operator only";
  criteria = record { products = "operator" ∷ []; types = []; statuses = []; actors = [] };
}

shown :
    filtered_rollouts (apply_preset operator_only empty_filter) (operator ∷ monalesy ∷ [])
    ≡ operator ∷ []
unfolding filter_code
shown = refl

none_shown : filtered_rollouts (toggle actors "XY" empty_filter) (operator ∷ monalesy ∷ []) ≡ []
unfolding filter_code
none_shown = refl

filter_match_iff_example : (filter_match operator operator_only.criteria ≡ true) ↔ (
    Meets ("operator" ∷ []) ("operator" ∷ [])
    × Meets [] ("operator-default" ∷ [])
    × Meets [] ("LM" ∷ "SK" ∷ [])
    × Meets [] ("scheduled" ∷ []))
filter_match_iff_example = filter_match_iff operator operator_only.criteria

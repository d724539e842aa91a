-- ===== src/Data/Tests.antt =====
-- The references between the tables of data.js.
use release_radar.Prelude.{◌≡◌, refl, Bool, true, false, ◌&&◌, Option, none, some, all}
use release_radar.Calendar.{weekday, number, before_year, before_month}
use release_radar.Data.{MockRollout, today, is_friday, get_product, get_actor}
use release_radar.Data.Types.{get_type}
use release_radar.Data.Rollouts.{rollouts}

data_code : Unit {0}
unfolding get_product get_actor get_type is_friday weekday number before_year before_month
data_code = tt

abbrev is_some {ℓ} : {A : Type ℓ} → Option A → Bool
is_some none = false
is_some (some a) = true

abbrev refers : MockRollout → Bool
refers r =
    is_some (get_product r.product)
    && is_some (get_type r.type_id)
    && all (λ id. is_some (get_actor id)) r.pair

references : all refers rollouts ≡ true
unfolding data_code
references = refl

wednesday : (weekday today ≡ 3) × (is_friday today ≡ false)
unfolding data_code
wednesday = (refl, refl)

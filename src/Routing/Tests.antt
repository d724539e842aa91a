-- ===== src/Routing/Tests.antt =====
-- A few addresses, and the theorem there.
use release_radar.Prelude.{◌≡◌, refl, String, Option, none, some}
use release_radar.Data.{MockRollout}
use release_radar.Data.Rollouts.{rollouts}
use release_radar.Routing.{
  App, parse_hash, new_app, on_hash, open_rollout, detail_rollout, open_full_page,
  close_detail_page, on_nav, screen, list, drawer,
}

routing_code : Unit {0}
unfolding parse_hash on_hash open_rollout detail_rollout open_full_page close_detail_page on_nav
    screen drawer
routing_code = tt

routes : (parse_hash "#rollout/r-101" ≡ some "r-101") × (parse_hash "#list" ≡ none)
unfolding routing_code
routes = (refl, refl)

abbrev app : App
app = record (new_app "") { open_id = some "r-103" }

abbrev id_of : Option MockRollout → String
id_of none = ""
id_of (some r) = r.id

drawers :
    (id_of (drawer rollouts app) ≡ "r-103")
    × (id_of (drawer rollouts (on_hash (open_full_page "r-103" app))) ≡ "")
    × (screen rollouts (on_nav "list" (on_hash (open_full_page "r-103" app))) ≡ list)
unfolding routing_code
drawers = (refl, refl, refl)

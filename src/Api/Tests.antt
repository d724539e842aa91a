-- ===== src/Api/Tests.antt =====
-- The requests of the client, and which of them the interceptor watches.
use release_radar.Prelude.{◌≡◌, refl, true, false, Bool, [], ◌∷◌, map}
use release_radar.Rollout.{done}
use release_radar.Auth.{is_watched, path_of, contains}
use release_radar.Detail
use release_radar.Api.{
  Request, me, products, rollout_types, rollouts, rollout, locks, delete_lock, update_task,
  detail_request,
}

api_code : Unit {0}
unfolding me products rollout_types rollouts rollout locks delete_lock update_task detail_request
    is_watched path_of contains
api_code = tt

abbrev watched : Request → Bool
unfolding api_code
watched r = is_watched r.url

-- The probe of the session is the one request that is not watched.
watching :
    (map watched (me ∷ []) ≡ false ∷ [])
    × (map watched
          (products ∷ rollout_types ∷ rollouts ∷ rollout "r-101" ∷ locks ∷ delete_lock "l-2" ∷ [])
        ≡ true ∷ true ∷ true ∷ true ∷ true ∷ true ∷ [])
unfolding api_code
watching = (refl, refl)

-- An id that ends as the probe does, or has the sign-in's path within, is not watched.
not_watched : map watched (rollout "x/api/me" ∷ rollout "x/auth/y" ∷ []) ≡ false ∷ false ∷ []
unfolding api_code
not_watched = refl

task_url :
    (detail_request (Detail.update_task "r-101" 12 done "")).url ≡ "/api/rollouts/r-101/tasks/12"
unfolding api_code
task_url = refl

-- ===== src/Auth/Tests.antt =====
-- A signed-in application whose session expires, and the theorems there.
use release_radar.Prelude.{◌≡◌, refl, true, false, none, some, [], ◌∷◌}
use release_radar.Live.{
  Attempt, wait, bump_fires, run, connect, open_socket, schedule_reconnect, disconnect,
}
use release_radar.Live.Silence.{IsSilent}
use release_radar.Rollout.{admin, SessionUser}
use release_radar.Auth.{
  can_edit, App, http_error, path_of, contains, is_watched, load, clear, intercept, initialize,
}
use release_radar.Auth.Expiry.{new_app, intercept_unauthorized, initialize_lem}

auth_code : Unit {0}
unfolding load clear path_of contains is_watched intercept initialize connect open_socket
    schedule_reconnect disconnect
auth_code = tt

abbrev user : SessionUser
user = record { email = "a@example.com"; name = "A"; initials = "A"; role = admin; groups = [] }

abbrev attempt : Attempt
attempt = record { opens = true; draw = 0 }

abbrev started : App
started = initialize (some user) attempt new_app

watched :
    (is_watched "/api/rollouts?x=1" ≡ true)
    × (is_watched "/api/me#a" ≡ false)
    × (is_watched "/auth/login" ≡ false)
unfolding auth_code
watched = (refl, refl, refl)

probe : intercept "/api/me" (http_error 401) started ≡ (http_error 401, started)
unfolding auth_code
probe = refl

rights : can_edit started.session ≡ true
unfolding auth_code
rights = refl

intercept_unauthorized_example :
    let after : App = (intercept "/api/rollouts" (http_error 401) started).1 in
    ((intercept "/api/rollouts" (http_error 401) started).0 ≡ http_error 401)
    × (after.session.user ≡ none)
    × IsSilent (run (wait 600000 ∷ bump_fires ∷ []) after.live)
    × ((run (wait 600000 ∷ bump_fires ∷ []) after.live).bus ≡ started.live.bus)
unfolding auth_code
intercept_unauthorized_example =
    intercept_unauthorized "/api/rollouts" (http_error 401) started (wait 600000 ∷ bump_fires ∷ [])
      (initialize_lem (some user) attempt).0 (tt, (tt, tt)) refl refl refl

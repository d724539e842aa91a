-- ===== src/Auth/Expiry.antt =====
-- auth.interceptor.ts and app.config.ts: an expired session, and the start of the application.
use release_radar.Prelude.{◌≡◌, ◌↔◌, refl, true, String, Option, none, some, List, arith, All}
use release_radar.Live.{
  new_live, offline, Attempt, Event, run, step, connect, open_socket, schedule_reconnect,
}
use release_radar.Live.Invariant.{IsValid, new-IsValid}
use release_radar.Live.Silence.{IsSilent, IsNoConnect, disconnect-run-IsSilent}
use release_radar.Rollout.{SessionUser}
use release_radar.Auth.{
  new_session, App, is_some, is_unauthorized, is_watched, Outcome, intercept, clear, initialize,
  load,
}

-- A 401 to a watched request of a signed-in user is given on, takes the user away, and silences the
-- live channel, if it was valid: until the next connect no socket or timer of it does anything, and
-- nothing is fetched again.
pub intercept_unauthorized :
    (url : String) (o : Outcome) (app : App) (es : List Event)
    → IsValid app.live
    → All IsNoConnect es
    → is_unauthorized o ≡ true
    → is_some app.session.user ≡ true
    → is_watched url ≡ true
    → let after : App = (intercept url o app).1 in
      ((intercept url o app).0 ≡ o)
      × (after.session.user ≡ none)
      × IsSilent (run es after.live)
      × ((run es after.live).bus ≡ app.live.bus)
unfolding intercept step clear
intercept_unauthorized url o app es v n h k l =
    let (silent, same) = disconnect-run-IsSilent es app.live n v in
    rw (h, k, l) (refl, refl, silent, same)

abbrev pub new_app : App
new_app = record { session = new_session; live = new_live }

-- The application starts with a valid channel, which is offline exactly if nobody is signed in.
pub initialize_lem :
    (answer : Option SessionUser) (a : Attempt)
    → IsValid (initialize answer a new_app).live
      × (((initialize answer a new_app).live.status ≡ offline) ↔ (answer ≡ none))
unfolding initialize load connect open_socket schedule_reconnect
initialize_lem none a = (new-IsValid, (λ h. refl, λ h. refl))
initialize_lem (some u) a = (ground arith, (λ h. ground (arith, h), λ h. ground (arith, h)))

-- ===== src/Auth.antt =====
-- frontend/src/app/core/auth/session.store.ts and auth.interceptor.ts, the start of the application in
-- app.config.ts, and core/dialog.store.ts: who is signed in, what an expired session stops, and which
-- dialog is open (the signal `open`, which is `kind` here).
pub mod Expiry
mod Tests
use text.Mathlib.Text.{◌==◌ as str_eq}
use Prim.Native.Char.{code}
use Prim.Native.String
use Prim.Native.String.{slice, len}
use release_radar.Prelude.{
  ℕ, ◌-◌, Bool, true, false, not, ◌&&◌, ◌||◌, String, Option, none, some, ◌==◌, leb, if◌then◌else◌,
}
use release_radar.Live.{Live, Attempt, connect, disconnect}
use release_radar.Rollout.{Role, admin, readonly, SessionUser, Lock}

pub record Session : Type 0 where
  pub user : Option SessionUser
  pub loaded : Bool

abbrev pub new_session : Session
new_session = record { user = none; loaded = false }

abbrev pub is_some {ℓ} : {A : Type ℓ} → Option A → Bool
is_some none = false
is_some (some a) = true

abbrev pub role_of : Option SessionUser → Role
role_of none = readonly
role_of (some u) = u.role

abbrev pub is_admin : Session → Bool
is_admin s = elim (role_of s.user) [ admin ↦ true | readonly ↦ false ]

abbrev pub can_edit : Session → Bool
can_edit s = is_admin s

-- The answer of `/api/me`: a user, or an error of any kind.
unfoldable pub load : Option SessionUser → Session → Session
load answer s = record { user = answer; loaded = true }

unfoldable pub clear : Session → Session
clear s = record s { user = none }

-- The session and the live channel, as the application wires them.
pub record App : Type 0 where
  pub session : Session
  pub live : Live

-- The initializer: the session is loaded, and the channel opened for a user. The channel's
-- `connect` does not throw.
abbrev pub connect_for : Option SessionUser → Attempt → Live → Live
connect_for none a l = l
connect_for (some u) a l = connect a l

unfoldable pub initialize : Option SessionUser → Attempt → App → App
unfolding load
initialize answer a app =
    let session = load answer app.session in
    record { session = session; live = connect_for session.user a app.live }

-- `req.url.split(/[?#]/)[0]`
unfoldable pub path_of : String → String
path_of String.[] = ""
path_of (String.◌∷◌ c s) =
    let rest = path_of s in if code c == 63 || code c == 35 then "" else String.◌∷◌ c rest

abbrev pub ends_with : String → String → Bool
ends_with s t = leb (len t) (len s) && str_eq (slice s (len s - len t) (len s)) t

unfoldable pub contains : String → String → Bool
contains s t = leb (String.find s t) (len s)

-- What a request ends with: a response, an HTTP status, or another error.
pub data Outcome : Type 0 where
  response : Outcome
  http_error : (status : ℕ) → Outcome
  other_error : Outcome

abbrev pub is_unauthorized : Outcome → Bool
is_unauthorized response = false
is_unauthorized (http_error status) = status == 401
is_unauthorized other_error = false

-- A path that is neither the probe of the session nor the sign-in.
unfoldable pub is_watched : String → Bool
unfolding path_of contains
is_watched url = not (ends_with (path_of url) "/api/me") && not (contains (path_of url) "/auth/")

-- The interceptor gives the outcome on.
unfoldable pub intercept : String → Outcome → App → Outcome × App
unfolding clear
intercept url o app = (
  o,
  if is_unauthorized o && (is_some app.session.user && is_watched url)
      then record { session = clear app.session; live = disconnect app.live }
      else app,
)

pub data DialogKind : Type 0 where
  rollout lock : DialogKind

pub record Dialog : Type 0 where
  pub kind : Option DialogKind
  pub lock_edit : Option Lock

unfoldable pub open_rollout : Dialog → Dialog
open_rollout d = record d { kind = some rollout }

unfoldable pub open_lock : Option Lock → Dialog → Dialog
open_lock l d = record { kind = some lock; lock_edit = l }

unfoldable pub close : Dialog → Dialog
close d = record { kind = none; lock_edit = none }

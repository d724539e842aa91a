-- ===== src/Live.antt =====
-- frontend/src/app/core/live.service.ts: the client's end of the live channel, one WebSocket with
-- reconnection, and three timers. A socket is the number of the call of the factory that made it.
-- Time counts ten-thousandths of a millisecond, so that the jitter is a whole number of them.
pub mod Invariant
pub mod Silence
pub mod Double
pub mod Backoff
mod Tests
pub mod Frames
pub mod Recovery
use release_radar.Prelude.{
  ℕ, ◌+◌, ◌*◌, min, Bool, true, false, ◌||◌, not, Option, none, some, List, [], ◌∷◌, String, leb,
  ◌==◌, if◌then◌else◌, filter, any,
}
use release_radar.Bus.{Bus, new_bus, bump}
use Prim.Native.String
use text.Mathlib.Text.{◌==◌ as str_eq}

pub data LiveStatus : Type 0 where
  connecting live reconnecting offline : LiveStatus

abbrev pub ms : ℕ → ℕ
ms k = k * 10000

abbrev pub backoff_start : ℕ
backoff_start = 500

abbrev pub backoff_cap : ℕ
backoff_cap = 8000

abbrev pub debounce_ms : ℕ
debounce_ms = 150

abbrev pub stable_after_ms : ℕ
stable_after_ms = 3000

-- The service's fields, with what lies around it: the clock, the bus, the sockets whose handlers
-- are attached and those that were closed. A timer is the time when it is due.
pub record Live : Type 0 where
  pub status : LiveStatus
  pub socket : Option ℕ
  pub connecting : Bool
  pub stopped : Bool
  pub backoff : ℕ
  pub last_rev : ℕ
  pub reconnect_timer : Option ℕ
  pub bump_timer : Option ℕ
  pub stable_timer : Option ℕ
  pub bus : Bus
  pub now : ℕ
  pub made : ℕ
  pub attached : List ℕ
  pub closed : List ℕ

abbrev pub new_live : Live
new_live = record {
  status = offline;
  socket = none;
  connecting = false;
  stopped = false;
  backoff = backoff_start;
  last_rev = 0;
  reconnect_timer = none;
  bump_timer = none;
  stable_timer = none;
  bus = new_bus;
  now = 0;
  made = 0;
  attached = [];
  closed = [];
}

-- The same-origin address of the channel.
unfoldable pub url : String → String → String
url protocol host =
    String.◌++◌ (if str_eq protocol "https:" then "wss" else "ws")
      (String.◌++◌ "://" (String.◌++◌ host "/api/ws"))

-- What the outside decides when a socket is asked for: whether the factory returns one, and the
-- draw of `Math.random()`, in thousandths, should a reconnection have to be scheduled.
pub record Attempt : Type 0 where
  pub opens : Bool
  pub draw : ℕ

abbrev pub is_offline : LiveStatus → Bool
is_offline offline = true
is_offline _ = false

abbrev pub is_some {ℓ} : {A : Type ℓ} → Option A → Bool
is_some none = false
is_some (some a) = true

abbrev pub detach : Option ℕ → List ℕ → List ℕ
detach none l = l
detach (some i) l = filter (λ j. not (j == i)) l

-- The delay of the next attempt, jitter included.
unfoldable pub reconnect_delay : ℕ → ℕ → ℕ
reconnect_delay backoff draw = ms (min backoff backoff_cap) + draw * backoff * 3

unfoldable pub schedule_reconnect : ℕ → Live → Live
unfolding reconnect_delay
schedule_reconnect draw s = if s.stopped || is_some s.reconnect_timer then s else record s {
  backoff = min (s.backoff * 2) backoff_cap;
  reconnect_timer = some (s.now + reconnect_delay s.backoff draw);
}

unfoldable pub schedule_bump : Live → Live
schedule_bump s = record s { bump_timer = some (s.now + ms debounce_ms) }

unfoldable pub open_socket : Attempt → Live → Live
unfolding schedule_reconnect
open_socket a s =
    let begun = record s {
      connecting = true;
      status = if is_offline s.status then connecting else s.status;
      last_rev = 0;
    } in
    if a.opens
    then record begun { socket = some s.made; made = s.made + 1; attached = s.made ∷ s.attached }
    else schedule_reconnect a.draw (record begun { connecting = false })

unfoldable pub connect : Attempt → Live → Live
unfolding open_socket
connect a s =
    if is_some s.socket || s.connecting then s else open_socket a (record s { stopped = false })

-- The handler `onopen`.
unfoldable pub on_open : Live → Live
unfolding schedule_bump
on_open s = schedule_bump (record s {
  connecting = false;
  status = live;
  stable_timer = some (s.now + ms stable_after_ms);
})

-- A frame, as `JSON.parse` reads it: not JSON, with no number `rev`, or with one.
pub data Frame : Type 0 where
  malformed : Frame
  no_rev : Frame
  rev : ℕ → Frame

-- The handler `onmessage`.
unfoldable pub on_message : Frame → Live → Live
unfolding schedule_bump
on_message malformed s = s
on_message no_rev s = s
on_message (rev r) s = if leb r s.last_rev then s else schedule_bump (record s { last_rev = r })

-- The handlers `onerror` and `onclose`.
unfoldable pub handle_drop : ℕ → Live → Live
unfolding schedule_reconnect
handle_drop draw s =
    let dropped = record s {
      connecting = false;
      attached = detach s.socket s.attached;
      socket = none;
      stable_timer = none;
    } in
    if s.stopped
    then dropped
    else schedule_reconnect draw (record dropped { status = reconnecting })

abbrev pub closing : Option ℕ → List ℕ → List ℕ
closing none l = l
closing (some i) l = i ∷ l

unfoldable pub disconnect : Live → Live
disconnect s = record s {
  stopped = true;
  connecting = false;
  reconnect_timer = none;
  bump_timer = none;
  stable_timer = none;
  attached = detach s.socket s.attached;
  closed = closing s.socket s.closed;
  socket = none;
  status = offline;
}

-- The callbacks of the three timers.
unfoldable pub on_reconnect_timer : Attempt → Live → Live
unfolding open_socket
on_reconnect_timer a s = open_socket a (record s { reconnect_timer = none })

unfoldable pub on_bump_timer : Live → Live
unfolding bump
on_bump_timer s = record s { bump_timer = none; bus = bump s.bus }

unfoldable pub on_stable_timer : Live → Live
on_stable_timer s = record s { stable_timer = none; backoff = backoff_start }

-- What can happen next: a call of the service, a handler of a socket, a timer, or time passing.
pub data Event : Type 0 where
  connects : Attempt → Event
  disconnects : Event
  opened : (socket : ℕ) → Event
  message : (socket : ℕ) → Frame → Event
  dropped : (socket draw : ℕ) → Event
  reconnect_fires : Attempt → Event
  bump_fires : Event
  stable_fires : Event
  wait : ℕ → Event

abbrev pub is_attached : ℕ → Live → Bool
is_attached i s = any (λ j. j == i) s.attached

abbrev pub is_due : Option ℕ → ℕ → Bool
is_due none now = false
is_due (some due) now = leb due now

-- One event. A socket whose handlers were detached and a timer that is not due do nothing.
unfoldable pub step : Event → Live → Live
step (connects a) s = connect a s
step disconnects s = disconnect s
step (opened i) s = if is_attached i s then on_open s else s
step (message i f) s = if is_attached i s then on_message f s else s
step (dropped i draw) s = if is_attached i s then handle_drop draw s else s
step (reconnect_fires a) s = if is_due s.reconnect_timer s.now then on_reconnect_timer a s else s
step bump_fires s = if is_due s.bump_timer s.now then on_bump_timer s else s
step stable_fires s = if is_due s.stable_timer s.now then on_stable_timer s else s
step (wait d) s = record s { now = s.now + d }

-- A session: its events, first to last.
abbrev pub run : List Event → Live → Live
run [] s = s
run (e ∷ es) s = run es (step e s)

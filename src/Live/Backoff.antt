-- ===== src/Live/Backoff.antt =====
-- live.service.ts: how long the service waits before it tries again.
use release_radar.Prelude.{ℕ, ◌+◌, ◌*◌, ◌≤◌, ◌<◌, ◌≡◌, false, none, some, arith}
use release_radar.Live.{
  Live, ms, reconnect_delay, schedule_reconnect, open_socket, on_reconnect_timer, Attempt, Event,
  connects, disconnects, opened, message, dropped, reconnect_fires, bump_fires, stable_fires, wait,
  step, connect, handle_drop, on_open, on_message, disconnect, on_bump_timer, on_stable_timer,
}
use release_radar.Live.Invariant.{IsValid}

draw_product : (a b : ℕ) → a ≤ 8000 → b < 1000 → b * a ≤ 7992000
draw_product a b h k = grind arith

-- A delay lies between 500 ms and 10.4 s.
pub reconnect_delay_bounds :
    (backoff draw : ℕ)
    → 500 ≤ backoff
    → backoff ≤ 8000
    → draw < 1000
    → (ms 500 ≤ reconnect_delay backoff draw) × (reconnect_delay backoff draw < ms 10400)
unfolding reconnect_delay
reconnect_delay_bounds backoff draw h k l =
    (omega arith, omega (arith, draw_product backoff draw k l))

-- What `Math.random()` draws is below one.
abbrev pub DrawsBelow : Event → Type 0
DrawsBelow (connects a) = a.draw < 1000
DrawsBelow (reconnect_fires a) = a.draw < 1000
DrawsBelow (dropped i draw) = draw < 1000
DrawsBelow _ = Unit

-- A pending reconnection is due within 10.4 s.
abbrev pub Soon : Live → Type 0
Soon s = (d : ℕ) → s.reconnect_timer ≡ some d → d < s.now + ms 10400

schedule_reconnect-Soon :
    (draw : ℕ) (s : Live)
    → 500 ≤ s.backoff
    → s.backoff ≤ 8000
    → draw < 1000
    → Soon s
    → Soon (schedule_reconnect draw s)
unfolding schedule_reconnect
schedule_reconnect-Soon draw s h k l t d e =
    ground (arith, t d, reconnect_delay_bounds s.backoff draw)

open_socket-Soon :
    (a : Attempt) (s : Live)
    → 500 ≤ s.backoff
    → s.backoff ≤ 8000
    → a.draw < 1000
    → Soon s
    → Soon (open_socket a s)
unfolding open_socket
open_socket-Soon a s h k l t d e = ground (arith, t d, reconnect_delay_bounds s.backoff a.draw)

handle_drop-Soon :
    (draw : ℕ) (s : Live)
    → 500 ≤ s.backoff
    → s.backoff ≤ 8000
    → draw < 1000
    → Soon s
    → Soon (handle_drop draw s)
unfolding handle_drop
handle_drop-Soon draw s h k l t d e = ground (arith, t d, reconnect_delay_bounds s.backoff draw)

-- Every event keeps a pending reconnection within 10.4 s.
pub step-Soon : (e : Event) (s : Live) → DrawsBelow e → IsValid s → Soon s → Soon (step e s)
unfolding step
step-Soon (connects a) s b v t d e =
    unfold connect in
    ground (
      arith,
      t d,
      open_socket-Soon a s v.at_least v.at_most b t d,
      open_socket-Soon a (record s { stopped = false }) v.at_least v.at_most b t d,
    )
step-Soon disconnects s b v t d e = unfold disconnect in ground arith
step-Soon (opened i) s b v t d e = unfold on_open in ground (arith, t d)
step-Soon (message i f) s b v t d e = unfold on_message in ground (arith, t d)
step-Soon (dropped i draw) s b v t d e =
    ground (arith, t d, handle_drop-Soon draw s v.at_least v.at_most b t d)
step-Soon (reconnect_fires a) s b v t d e =
    unfold on_reconnect_timer in
    ground (
      arith,
      t d,
      open_socket-Soon a (record s { reconnect_timer = none }) v.at_least v.at_most b
          (λ k x. absurd (cc)) d,
    )
step-Soon bump_fires s b v t d e = unfold on_bump_timer in ground (arith, t d)
step-Soon stable_fires s b v t d e = unfold on_stable_timer in ground (arith, t d)
step-Soon (wait n) s b v t d e = ground (arith, t d)

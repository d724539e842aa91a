-- ===== src/Live/Tests.antt =====
-- Sessions of the live service, and the theorems at them.
use release_radar.Prelude.{◌+◌, ◌*◌, ◌≡◌, refl, true, false, some, List, [], ◌∷◌, ◌++◌, arith, map}
use release_radar.Bus.{bump}
use release_radar.Live.{
  Live, new_live, ms, Attempt, Frame, malformed, no_rev, rev, on_open, on_message, handle_drop,
  connect, open_socket, schedule_reconnect, schedule_bump, disconnect, on_reconnect_timer,
  on_bump_timer, on_stable_timer, reconnect_delay, Event, connects, disconnects, opened, message,
  dropped, reconnect_fires, bump_fires, wait, step, run, url,
}
use release_radar.Live.Invariant.{IsValid, ArePrudent, new-IsValid, run-IsValid}
use release_radar.Live.Silence.{IsSilent, disconnect-run-IsSilent}
use release_radar.Live.Double.{connect_pending}
use release_radar.Live.Backoff.{Soon}
use release_radar.Live.Recovery.{run-reconnects}
use release_radar.Live.Frames.{run-messages, heard}

live_code : Unit {0}
unfolding step connect open_socket schedule_reconnect reconnect_delay on_open on_message handle_drop
    disconnect on_reconnect_timer on_bump_timer on_stable_timer schedule_bump bump
live_code = tt

abbrev opening : Attempt
opening = record { opens = true; draw = 500 }

abbrev failing : Attempt
failing = record { opens = false; draw = 500 }

abbrev session : List Event
session = connects opening ∷ opened 0 ∷ message 0 (rev 3) ∷ dropped 0 100 ∷ []

-- After a drop the service waits 500 ms and the jitter, and its backoff is doubled.
session_waits :
    ((run session new_live).reconnect_timer ≡ some (500 * 10000 + 100 * 500 * 3))
    × ((run session new_live).backoff ≡ 1000)
    × ((run session new_live).attached ≡ [])
unfolding live_code
session_waits = (refl, refl, refl)

-- The fresh socket takes a revision that the old one had left behind.
fresh_session :
    (run
      (session ++ wait (ms 600) ∷ reconnect_fires opening ∷ message 1 (rev 1) ∷ [])
      new_live).last_rev
    ≡ 1
unfolding live_code
fresh_session = refl

url_https : url "https:" "radar.example" ≡ "wss://radar.example/api/ws"
unfolding url
url_https = refl

session-ArePrudent : ArePrudent session new_live
session-ArePrudent = (refl, (tt, (tt, (tt, tt))))

abbrev waiting : Live
waiting = run session new_live

waiting-Soon : Soon waiting
unfolding live_code
waiting-Soon d e = ground arith

run-IsValid_example : IsValid (run session new_live)
run-IsValid_example = run-IsValid session new_live session-ArePrudent new-IsValid

disconnect-run-IsSilent_example :
    IsSilent (run (disconnects ∷ message 0 (rev 9) ∷ wait 5 ∷ bump_fires ∷ []) waiting)
    × ((run (disconnects ∷ message 0 (rev 9) ∷ wait 5 ∷ bump_fires ∷ []) waiting).bus ≡ waiting.bus)
disconnect-run-IsSilent_example =
    disconnect-run-IsSilent (message 0 (rev 9) ∷ wait 5 ∷ bump_fires ∷ []) waiting
      (tt, (tt, (tt, tt))) run-IsValid_example

-- A drop after a first connection, and the timer due.
abbrev pending : Live
pending = run (wait (ms 600) ∷ []) waiting

connect_pending_example :
    ((run (connects opening ∷ reconnect_fires opening ∷ []) pending).attached ≡ 2 ∷ 1 ∷ [])
    × ((disconnect (run (connects opening ∷ reconnect_fires opening ∷ []) pending)).attached
        ≡ 1 ∷ [])
unfolding live_code
connect_pending_example =
    connect_pending pending (500 * 10000 + 100 * 500 * 3) opening opening refl refl refl refl
      (omega arith) refl refl

run-reconnects_example :
    (run (wait (ms 10400) ∷ reconnect_fires opening ∷ []) (run session new_live)).socket ≡ some 1
unfolding live_code
run-reconnects_example =
    run-reconnects session opening session-ArePrudent (omega arith, (tt, (tt, (omega arith, tt))))
      (λ e. cc) refl refl

abbrev connected : Live
connected = run (connects opening ∷ opened 0 ∷ []) new_live

abbrev burst : List Frame
burst = rev 2 ∷ malformed ∷ rev 1 ∷ no_rev ∷ rev 5 ∷ rev 5 ∷ []

run-messages_example : run (map (message 0) burst) connected ≡ heard 5 connected
unfolding live_code
run-messages_example = run-messages 0 burst connected refl

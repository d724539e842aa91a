-- ===== src/Live/Double.antt =====
-- live.service.ts: the guard of `connect` looks at the socket and at `connecting`, and not at a
-- pending reconnection.
use release_radar.Prelude.{ℕ, ◌+◌, ◌≤◌, ◌≡◌, true, false, none, some, [], ◌∷◌, arith}
use release_radar.Live.{
  Live, Attempt, open_socket, connect, disconnect, on_reconnect_timer, connects, reconnect_fires,
  step, run,
}

-- A `connect` while a reconnection is pending opens a socket, and the timer opens a second one:
-- both keep their handlers, and a later `disconnect` leaves those of the first attached.
pub connect_pending :
    (s : Live) (due : ℕ) (a b : Attempt)
    → s.socket ≡ none
    → s.connecting ≡ false
    → s.attached ≡ []
    → s.reconnect_timer ≡ some due
    → due ≤ s.now
    → a.opens ≡ true
    → b.opens ≡ true
    → let t = run (connects a ∷ reconnect_fires b ∷ []) s in
      (t.attached ≡ (s.made + 1) ∷ s.made ∷ []) × ((disconnect t).attached ≡ s.made ∷ [])
unfolding step connect open_socket on_reconnect_timer disconnect
connect_pending s due a b h1 h2 h3 h4 h5 h6 h7 = (ground arith, ground arith)

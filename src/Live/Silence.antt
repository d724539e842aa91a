-- ===== src/Live/Silence.antt =====
-- live.service.ts: what `disconnect` promises.
use release_radar.Prelude.{◌≡◌, refl, ◌∙◌, none, List, [], ◌∷◌, arith, All}
use release_radar.Live.{
  Live, offline, disconnect, Event, connects, disconnects, opened, message, dropped,
  reconnect_fires, bump_fires, stable_fires, wait, step, run,
}
use release_radar.Live.Invariant.{IsValid}

abbrev pub IsNoConnect : Event → Type 0
IsNoConnect (connects a) = ⊥
IsNoConnect _ = Unit

-- No handler is attached and no timer is set.
pub record IsSilent (s : Live) : Type 0 where
  pub status : s.status ≡ offline
  pub socket : s.socket ≡ none
  pub attached : s.attached ≡ []
  pub reconnect_timer : s.reconnect_timer ≡ none
  pub bump_timer : s.bump_timer ≡ none
  pub stable_timer : s.stable_timer ≡ none

-- Such a service only lets time pass.
step-IsSilent :
    (e : Event) (s : Live)
    → IsNoConnect e
    → IsSilent s
    → IsSilent (step e s) × ((step e s).bus ≡ s.bus)
unfolding step disconnect
step-IsSilent (connects a) s n h = absurd n
step-IsSilent disconnects s n h = ground arith
step-IsSilent (opened i) s n h = ground arith
step-IsSilent (message i f) s n h = ground arith
step-IsSilent (dropped i draw) s n h = ground arith
step-IsSilent (reconnect_fires a) s n h = ground arith
step-IsSilent bump_fires s n h = ground arith
step-IsSilent stable_fires s n h = ground arith
step-IsSilent (wait d) s n h = ground arith

run-IsSilent :
    (es : List Event) (s : Live)
    → All IsNoConnect es
    → IsSilent s
    → IsSilent (run es s) × ((run es s).bus ≡ s.bus)
run-IsSilent [] s n h = (h, refl)
run-IsSilent (e ∷ es) s (n, ns) h =
    let (now, same) = step-IsSilent e s n h in
    let (later, also) = run-IsSilent es (step e s) ns now in (later, also ∙ same)

disconnect-IsSilent :
    (s : Live) → IsValid s → IsSilent (disconnect s) × ((disconnect s).bus ≡ s.bus)
unfolding disconnect
disconnect-IsSilent s v = ground arith

-- After `disconnect` on a valid service nothing refetches and nothing reconnects: whatever sockets
-- and timers do and however long it takes, until the next `connect` the service stays offline,
-- with no socket, no attached handler and no timer, and the bus stands still.
pub disconnect-run-IsSilent :
    (es : List Event) (s : Live)
    → All IsNoConnect es
    → IsValid s
    → IsSilent (run (disconnects ∷ es) s) × ((run (disconnects ∷ es) s).bus ≡ s.bus)
unfolding step
disconnect-run-IsSilent es s n v =
    let (silent, same) = disconnect-IsSilent s v in
    let (later, also) = run-IsSilent es (disconnect s) n silent in (later, also ∙ same)

-- ===== src/Live/Recovery.antt =====
-- live.service.ts: the service does not get stuck, and it backs off while the server refuses.
use release_radar.Prelude.{
  ℕ, zero, suc, ◌*◌, ◌^◌, ◌≤◌, ◌<◌, ◌≡◌, ◌≢◌, min, dec_lt, ap, ◌∙◌, true, false, none, some, List,
  [], ◌∷◌, arith, length, inl, inr, Option-cases,
}
use native.Mathlib.Nat.{pow-suc}
use release_radar.Live.{
  Live, new_live, offline, ms, open_socket, on_reconnect_timer, Attempt, Event, reconnect_fires,
  wait, step, run,
}
use release_radar.Live.Invariant.{IsValid, ArePrudent, new-IsValid, run-IsValid}
use release_radar.Live.Backoff.{DrawsBelow, Soon, step-Soon, reconnect_delay_bounds}
use release_radar.Prelude.{All}

run-Soon :
    (es : List Event) (s : Live)
    → ArePrudent es s
    → All DrawsBelow es
    → IsValid s
    → Soon s
    → Soon (run es s)
run-Soon [] s p b v t = t
run-Soon (e ∷ es) s (p, ps) (b, bs) v t =
    run-Soon es (step e s) ps bs (run-IsValid (e ∷ []) s (p, tt) v) (step-Soon e s b v t)

reconnects :
    (a : Attempt) (s : Live)
    → IsValid s
    → Soon s
    → s.status ≢ offline
    → s.socket ≡ none
    → a.opens ≡ true
    → (run (wait (ms 10400) ∷ reconnect_fires a ∷ []) s).socket ≡ some s.made
unfolding step on_reconnect_timer open_socket
reconnects a s v t o n h = elim (Option-cases s.reconnect_timer) [
  | inl none_set ↦ ground arith
  | inr (due, set) ↦ ground (arith, t due set)
]

-- Whatever happened since the start (with `connect` left alone while a reconnection is pending),
-- a service that is not offline and has lost its socket gets a new one from the first attempt
-- that succeeds, and that attempt is made once 10.4 s have passed.
pub run-reconnects :
    (es : List Event) (a : Attempt)
    → ArePrudent es new_live
    → All DrawsBelow es
    → (run es new_live).status ≢ offline
    → (run es new_live).socket ≡ none
    → a.opens ≡ true
    → (run (wait (ms 10400) ∷ reconnect_fires a ∷ []) (run es new_live)).socket
      ≡ some (run es new_live).made
run-reconnects es a p b o n h =
    reconnects a (run es new_live) (run-IsValid es new_live p new-IsValid)
      (run-Soon es new_live p b new-IsValid (λ d e. absurd (cc))) o n h

-- Attempts that the factory refuses, each as soon as its timer is surely due.
abbrev pub refusals : List ℕ → List Event
refusals [] = []
refusals (draw ∷ draws) =
    wait (ms 10400) ∷ reconnect_fires (record { opens = false; draw = draw }) ∷ refusals draws

mul_mono : (a b p : ℕ) → a ≤ b → a * p ≤ b * p
mul_mono a b p h = grind arith

clip : (c p : ℕ) → 0 < p → min (min c 8000 * p) 8000 ≡ min (c * p) 8000
clip c p h = elim (dec_lt 8000 c) [
  | yes big ↦
      let e : min c 8000 ≡ 8000 = omega arith in
      rw e (omega (arith, mul_mono 8000 c p (omega arith)))
  | no small ↦ let e : min c 8000 ≡ c = omega arith in rw e
]

pow_pos : (n : ℕ) → 0 < 2 ^ n
pow_pos zero = omega arith
pow_pos (suc n) = omega (arith, pow-suc 2 n, pow_pos n)

doubling : (b n : ℕ) → min (min (b * 2) 8000 * 2 ^ n) 8000 ≡ min (b * 2 ^ suc n) 8000
doubling b n =
    clip (b * 2) (2 ^ n) (pow_pos n)
    ∙ ap (λ (x : ℕ). min x 8000) (omega (arith, ap (λ (x : ℕ). b * x) (pow-suc 2 n)))

-- A service that waits for its next attempt.
record IsWaiting (s : Live) : Type 0 where
  stopped : s.stopped ≡ false
  at_least : 500 ≤ s.backoff
  at_most : s.backoff ≤ 8000
  soon : Soon s
  set : s.reconnect_timer ≢ none

abbrev refused : ℕ → Live → Live
refused draw s =
    run (wait (ms 10400) ∷ reconnect_fires (record { opens = false; draw = draw }) ∷ []) s

refused-IsWaiting :
    (draw : ℕ) (s : Live)
    → draw < 1000
    → IsWaiting s
    → IsWaiting (refused draw s) × ((refused draw s).backoff ≡ min (s.backoff * 2) 8000)
unfolding step on_reconnect_timer open_socket
refused-IsWaiting draw s d w = elim (Option-cases s.reconnect_timer) [
  | inl off ↦ absurd (w.set off)
  | inr (due, on) ↦
      let t = w.soon due on in
      (
        record {
          stopped = ground (arith, t);
          at_least = ground (arith, t);
          at_most = ground (arith, t);
          soon = λ d' e. ground (arith, t, reconnect_delay_bounds s.backoff draw);
          set = ground (arith, t);
        },
        ground (arith, t),
      )
]

backoff-refusals_waiting :
    (draws : List ℕ) (s : Live)
    → All (λ d. d < 1000) draws
    → IsWaiting s
    → (run (refusals draws) s).backoff ≡ min (s.backoff * 2 ^ length draws) 8000
backoff-refusals_waiting [] s b w = omega (arith, w.at_most)
backoff-refusals_waiting (draw ∷ draws) s (b, bs) w =
    let (w', e) = refused-IsWaiting draw s b w in
    backoff-refusals_waiting draws (refused draw s) bs w' ∙ rw e (doubling s.backoff (length draws))

-- From a waiting service, `n` refused attempts in a row multiply the backoff by 2 ^ n, up to the
-- cap of 8000 ms.
pub backoff-refusals :
    (draws : List ℕ) (s : Live)
    → All (λ d. d < 1000) draws
    → IsValid s
    → Soon s
    → s.stopped ≡ false
    → s.reconnect_timer ≢ none
    → (run (refusals draws) s).backoff ≡ min (s.backoff * 2 ^ length draws) 8000
backoff-refusals draws s b v t h k =
    backoff-refusals_waiting draws s b
      (record { stopped = h; at_least = v.at_least; at_most = v.at_most; soon = t; set = k })

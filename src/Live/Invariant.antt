-- ===== src/Live/Invariant.antt =====
-- The invariant of the live service. `connect` has to be left alone while a reconnection is
-- pending (Live/Double shows why); the application calls it once, at its start.
use release_radar.Prelude.{
  ℕ, ◌≤◌, ◌≡◌, ◌≢◌, inl, inr, true, false, Option, none, some, List, [], ◌∷◌, arith, Bool-cases,
  Option-cases,
}
use release_radar.Live.{
  Live, new_live, live, offline, Attempt, is_some, is_attached, open_socket, connect, Frame,
  malformed, no_rev, rev, on_open, on_message, handle_drop, disconnect, on_reconnect_timer,
  on_bump_timer, on_stable_timer, Event, connects, disconnects, opened, message, dropped,
  reconnect_fires, bump_fires, stable_fires, wait, step, run,
}

abbrev pub sockets : Option ℕ → List ℕ
sockets none = []
sockets (some i) = i ∷ []

-- Nothing is open, scheduled or under way.
pub record IsIdle (s : Live) : Type 0 where
  pub socket : s.socket ≡ none
  pub connecting : s.connecting ≡ false
  pub reconnect_timer : s.reconnect_timer ≡ none
  pub bump_timer : s.bump_timer ≡ none
  pub stable_timer : s.stable_timer ≡ none

pub record IsValid (s : Live) : Type 0 where
  pub at_least : 500 ≤ s.backoff
  pub at_most : s.backoff ≤ 8000
  pub one_socket : s.attached ≡ sockets s.socket
  pub opening : s.connecting ≡ true → is_some s.socket ≡ true
  pub one_attempt : is_some s.reconnect_timer ≡ true → s.socket ≡ none
  pub steady : is_some s.stable_timer ≡ true → s.status ≡ live
  pub alive : s.status ≡ live → is_some s.socket ≡ true
  pub going : s.status ≢ offline → is_some s.socket ≡ false → is_some s.reconnect_timer ≡ true
  pub stops : s.stopped ≡ true → s.status ≡ offline
  pub idle : s.status ≡ offline → IsIdle s

pub new-IsValid : IsValid new_live
new-IsValid = ground arith

-- What an attached socket says of the service: it is the service's socket.
attached-some : (i : ℕ) (s : Live) → IsValid s → is_attached i s ≡ true → s.socket ≡ some i
attached-some i s v h = ground arith

open_socket-IsValid :
    (a : Attempt) (s : Live)
    → IsValid s
    → s.socket ≡ none
    → s.reconnect_timer ≡ none
    → s.stopped ≡ false
    → IsValid (open_socket a s)
unfolding open_socket
open_socket-IsValid a s v h k l = ground arith

connect-IsValid :
    (a : Attempt) (s : Live) → IsValid s → s.reconnect_timer ≡ none → IsValid (connect a s)
unfolding connect
connect-IsValid a s v h = ground arith

on_open-IsValid : (i : ℕ) (s : Live) → IsValid s → s.socket ≡ some i → IsValid (on_open s)
unfolding on_open
on_open-IsValid i s v h = ground arith

on_message-IsValid :
    (i : ℕ) (f : Frame) (s : Live) → IsValid s → s.socket ≡ some i → IsValid (on_message f s)
unfolding on_message
on_message-IsValid i malformed s v h = v
on_message-IsValid i no_rev s v h = v
on_message-IsValid i (rev r) s v h = ground arith

handle_drop-IsValid :
    (i draw : ℕ) (s : Live) → IsValid s → s.socket ≡ some i → IsValid (handle_drop draw s)
unfolding handle_drop
handle_drop-IsValid i draw s v h = ground arith

disconnect-IsValid : (s : Live) → IsValid s → IsValid (disconnect s)
unfolding disconnect
disconnect-IsValid s v = ground arith

on_reconnect_timer-IsValid :
    (a : Attempt) (due : ℕ) (s : Live)
    → IsValid s
    → s.reconnect_timer ≡ some due
    → IsValid (on_reconnect_timer a s)
unfolding on_reconnect_timer
on_reconnect_timer-IsValid a due s v h = ground arith

on_bump_timer-IsValid :
    (due : ℕ) (s : Live) → IsValid s → s.bump_timer ≡ some due → IsValid (on_bump_timer s)
unfolding on_bump_timer
on_bump_timer-IsValid due s v h = ground arith

on_stable_timer-IsValid :
    (due : ℕ) (s : Live) → IsValid s → s.stable_timer ≡ some due → IsValid (on_stable_timer s)
unfolding on_stable_timer
on_stable_timer-IsValid due s v h = ground arith

-- `connect` is called only while no reconnection is pending.
abbrev pub IsPrudent : Event → Live → Type 0
IsPrudent (connects a) s = s.reconnect_timer ≡ none
IsPrudent _ s = Unit

abbrev pub ArePrudent : List Event → Live → Type 0
ArePrudent [] s = Unit
ArePrudent (e ∷ es) s = IsPrudent e s × ArePrudent es (step e s)

pub step-IsValid : (e : Event) (s : Live) → IsPrudent e s → IsValid s → IsValid (step e s)
unfolding step
step-IsValid (connects a) s p v = connect-IsValid a s v p
step-IsValid disconnects s p v = disconnect-IsValid s v
step-IsValid (opened i) s p v = elim (Bool-cases (is_attached i s)) [
  | inl on ↦ rw on (on_open-IsValid i s v (attached-some i s v on))
  | inr off ↦ rw off v
]
step-IsValid (message i f) s p v = elim (Bool-cases (is_attached i s)) [
  | inl on ↦ rw on (on_message-IsValid i f s v (attached-some i s v on))
  | inr off ↦ rw off v
]
step-IsValid (dropped i draw) s p v = elim (Bool-cases (is_attached i s)) [
  | inl on ↦ rw on (handle_drop-IsValid i draw s v (attached-some i s v on))
  | inr off ↦ rw off v
]
step-IsValid (reconnect_fires a) s p v = elim (Option-cases s.reconnect_timer) [
  | inl off ↦ ground arith
  | inr (due, on) ↦ ground (arith, on_reconnect_timer-IsValid a due s v on)
]
step-IsValid bump_fires s p v = elim (Option-cases s.bump_timer) [
  | inl off ↦ ground arith
  | inr (due, on) ↦ ground (arith, on_bump_timer-IsValid due s v on)
]
step-IsValid stable_fires s p v = elim (Option-cases s.stable_timer) [
  | inl off ↦ ground arith
  | inr (due, on) ↦ ground (arith, on_stable_timer-IsValid due s v on)
]
step-IsValid (wait d) s p v = ground arith

-- After any session in which `connect` is left alone while a reconnection is pending: the backoff
-- is between 500 and 8000 ms; the attached socket is the service's own, and there is at most one;
-- a reconnection is pending only while there is no socket; and unless the service is offline, it
-- has a socket or a pending reconnection. Offline, nothing is open, scheduled or under way.
pub run-IsValid : (es : List Event) (s : Live) → ArePrudent es s → IsValid s → IsValid (run es s)
run-IsValid [] s p v = v
run-IsValid (e ∷ es) s (p, ps) v = run-IsValid es (step e s) ps (step-IsValid e s p v)

-- ===== src/Live/Frames.antt =====
-- live.service.ts: which frames count, and how a burst of them becomes one refetch.
use release_radar.Prelude.{
  ℕ, ◌+◌, ◌≤◌, ◌<◌, ◌≡◌, max, true, some, List, [], ◌∷◌, arith, map, if◌then◌else◌, ltb, ◌∙◌, ap,
  ◌≡⟨◌⟩◌, ◌∎,
}
use release_radar.Bus.{bump}
use release_radar.Live.{
  Live, ms, debounce_ms, is_attached, Frame, malformed, no_rev, rev, on_message, on_bump_timer,
  message, bump_fires, wait, step, run,
}

-- The highest revision of the frames, or the number given if none is higher.
abbrev pub highest : ℕ → List Frame → ℕ
highest r [] = r
highest r (malformed ∷ fs) = highest r fs
highest r (no_rev ∷ fs) = highest r fs
highest r (rev q ∷ fs) = highest (max r q) fs

highest-le : (r : ℕ) (fs : List Frame) → r ≤ highest r fs
highest-le r [] = omega arith
highest-le r (malformed ∷ fs) = highest-le r fs
highest-le r (no_rev ∷ fs) = highest-le r fs
highest-le r (rev q ∷ fs) = omega (arith, highest-le (max r q) fs)

step-message :
    (i : ℕ) (f : Frame) (s : Live) → is_attached i s ≡ true → step (message i f) s ≡ on_message f s
unfolding step
step-message i f s h = rw h

-- The state after a burst whose highest revision is `r`.
abbrev pub heard : ℕ → Live → Live
heard r s = record s {
  last_rev = r;
  bump_timer = if ltb s.last_rev r then some (s.now + ms debounce_ms) else s.bump_timer;
}

on_message-rev : (q : ℕ) (s : Live) → on_message (rev q) s ≡ heard (max s.last_rev q) s
unfolding on_message
on_message-rev q s = ground arith

heard-heard : (q r : ℕ) (s : Live) → s.last_rev ≤ q → q ≤ r → heard r (heard q s) ≡ heard r s
heard-heard q r s h k = ground arith

-- A burst of frames at one moment leaves the highest revision, and, if that is news, the one timer
-- of the debounce, set anew; all else, the bus included, is as before. Malformed, stale and
-- repeated frames count for nothing, in whatever order they come.
pub run-messages :
    (i : ℕ) (fs : List Frame) (s : Live)
    → is_attached i s ≡ true
    → run (map (message i) fs) s ≡ heard (highest s.last_rev fs) s
unfolding on_message
run-messages i [] s h = ground arith
run-messages i (malformed ∷ fs) s h =
    ap (run (map (message i) fs)) (step-message i malformed s h) ∙ run-messages i fs s h
run-messages i (no_rev ∷ fs) s h =
    ap (run (map (message i) fs)) (step-message i no_rev s h) ∙ run-messages i fs s h
run-messages i (rev q ∷ fs) s h =
    run (map (message i) fs) (step (message i (rev q)) s)
    ≡⟨ ap (run (map (message i) fs)) (step-message i (rev q) s h ∙ on_message-rev q s) ⟩
      run (map (message i) fs) (heard (max s.last_rev q) s)
    ≡⟨ run-messages i fs (heard (max s.last_rev q) s) h ⟩
      heard (highest (max s.last_rev q) fs) (heard (max s.last_rev q) s)
    ≡⟨ heard-heard (max s.last_rev q) _ s (omega arith) (highest-le (max s.last_rev q) fs) ⟩
      heard (highest (max s.last_rev q) fs) s ∎

-- After a burst with news, the timer makes one refetch once 150 ms have passed, and firing again
-- makes no second one.
pub burst_refetches_once :
    (i d : ℕ) (fs : List Frame) (s : Live)
    → is_attached i s ≡ true
    → s.last_rev < highest s.last_rev fs
    → ms debounce_ms ≤ d
    → (run (wait d ∷ bump_fires ∷ bump_fires ∷ []) (run (map (message i) fs) s)).bus ≡ bump s.bus
unfolding step on_bump_timer
burst_refetches_once i d fs s h news late = rw (run-messages i fs s h) (ground arith)

-- News in a burst makes no refetch while less than 150 ms have passed since the burst.
pub burst_waits :
    (i d : ℕ) (fs : List Frame) (s : Live)
    → is_attached i s ≡ true
    → s.last_rev < highest s.last_rev fs
    → d < ms debounce_ms
    → (run (wait d ∷ bump_fires ∷ []) (run (map (message i) fs) s)).bus ≡ s.bus
unfolding step on_bump_timer
burst_waits i d fs s h news early = rw (run-messages i fs s h) (ground arith)

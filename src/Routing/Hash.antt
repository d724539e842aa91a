-- ===== src/Routing/Hash.antt =====
-- app.jsx: a full page opened is the page that the hash names.
use Prim.Native.String.{slice, len}
use text.Mathlib.TextPositions.{starts_with-append, slice-append_right, len-append}
use release_radar.Prelude.{◌≡◌, refl, ap, ◌∙◌, false, String, none, some}
use release_radar.Prelude.Text.{◌◇◌, is_empty}
use release_radar.Routing.{App, strip_hash, parse_hash, on_hash, open_full_page}

behind : (s t : String) → slice (s ◇ t) (len s) (len (s ◇ t)) ≡ t
behind s t = ap (slice (s ◇ t) (len s)) (len-append s t) ∙ slice-append_right s t

strip_hash_lem : (s : String) → strip_hash ("#" ◇ s) ≡ s
strip_hash_lem s = rw (starts_with-append "#" s) (behind "#" s)

parse_hash_lem : (id : String) → parse_hash ("#" ◇ ("rollout/" ◇ id)) ≡ some id
unfolding parse_hash
parse_hash_lem id =
    rw (strip_hash_lem ("rollout/" ◇ id), starts_with-append "rollout/" id)
      (ap some (behind "rollout/" id))

-- A full page opened with an id that is not empty closes the drawer, and once the change of the hash is
-- noticed, the route is that id.
pub on_hash-open_full_page :
    (id : String) (a : App)
    → is_empty id ≡ false
    → ((on_hash (open_full_page id a)).hash_route ≡ some id)
      × ((on_hash (open_full_page id a)).open_id ≡ none)
unfolding on_hash open_full_page
on_hash-open_full_page id a h = rw h (parse_hash_lem id, refl)

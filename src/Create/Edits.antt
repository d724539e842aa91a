-- ===== src/Create/Edits.antt =====
-- create-lock-modal.component.ts: what a lock that is edited comes back as.
use Prim.Native.String.{count}
use text.Mathlib.TextLemmas.{length-append}
use release_radar.Prelude.{
  arith, ◌<◌, ℕ, ◌*◌, ◌/◌, ◌≡◌, ◌∙◌, refl, true, false, String, [], ◌∷◌, some, ltb, if◌then◌else◌,
}
use release_radar.Prelude.Text.{trim, is_empty, ◌◇◌}
use release_radar.Prelude.Decimal.{decimal}
use release_radar.Schedule.{pad, key}
use release_radar.Bus.{Bus}
use release_radar.Calendar.{Day}
use release_radar.Rollout.{Lock}
use release_radar.Auth.{Dialog, open_lock}
use release_radar.Create.{
  Clock, LockBody, inputs_of, form, update_lock, new_form, submit, body_of, to_local_input,
  can_submit, is_filled,
}
use release_radar.Create.Submit.{submit_lem}
use release_radar.Create.Times.{LocalTime, local_input}

abbrev pub two_digits : ℕ → String
two_digits n = if ltb n 10 then "0" ◇ decimal n else decimal n

abbrev pub iso_date : Day → String
iso_date d = decimal d.year ◇ "-" ◇ two_digits d.month ◇ "-" ◇ two_digits d.date

-- The text of a local date and time, as a date-time string of the language has it.
abbrev pub iso_text : LocalTime → String
iso_text t = iso_date t.day ◇ "T" ◇ two_digits t.hours ◇ ":" ◇ two_digits t.minutes

abbrev pub full_minute : ℕ → ℕ
full_minute t = t / 60000 * 60000

-- The moment's local fields, up to the minute, belong to no other moment, so that a `Date` of their
-- text is the moment's full minute. In the hour that is repeated in autumn it may be an hour off.
abbrev pub IsUnrepeated : Clock → ℕ → Type 0
IsUnrepeated clock t = clock.date (iso_text (clock.fields t)) ≡ some (full_minute t)

-- The lock's own fields, the times cut to their minutes.
abbrev pub cut : Lock → LockBody
cut l = record {
  title = trim l.title;
  description = l.description;
  contact = l.contact;
  start_at = full_minute l.start_at;
  end_at = full_minute l.end_at;
  products = l.products;
  kind = l.kind;
}

is_empty-count : (s : String) → 0 < count s → is_empty s ≡ false
is_empty-count String.[] h = absurd (omega arith)
is_empty-count (String.◌∷◌ c s) h = refl

is_empty-local_input : (t : LocalTime) → is_empty (local_input t) ≡ false
unfolding local_input
is_empty-local_input t = is_empty-count _ (
    omega (
      arith,
      length-append (key t.day) ("T" ◇ pad t.hours ◇ ":" ◇ pad t.minutes),
      length-append "T" (pad t.hours ◇ ":" ◇ pad t.minutes),
    ))

date-local_input :
    (clock : Clock) (t : ℕ)
    → IsUnrepeated clock t
    → clock.date (to_local_input clock t) ≡ some (full_minute t)
unfolding to_local_input local_input key pad
date-local_input clock t h = h

body_of-cut :
    (clock : Clock) (l : Lock)
    → IsUnrepeated clock l.start_at
    → IsUnrepeated clock l.end_at
    → body_of clock (inputs_of clock l) ≡ some (cut l)
unfolding body_of
body_of-cut clock l from to =
    rw (date-local_input clock l.start_at from, date-local_input clock l.end_at to) refl

can_submit-inputs_of :
    (clock : Clock) (l : Lock) (bus : Bus) (d : Dialog)
    → is_empty (trim l.title) ≡ false
    → is_filled l.products ≡ true
    → can_submit (form (some l.id) (inputs_of clock l) bus d) ≡ true
unfolding can_submit to_local_input
can_submit-inputs_of clock l bus d k m =
    let from_text = is_empty-local_input (clock.fields l.start_at) in
    let to_text = is_empty-local_input (clock.fields l.end_at) in rw (k, from_text, to_text, m) refl

-- A lock with an id, a title and a product that is opened in the form and submitted as it is goes to
-- the server under its id, with all its fields, but with the title trimmed and the seconds of its
-- times cut off; neither of its times lies in an hour that local time has twice.
pub submit-new_form :
    (clock : Clock) (l : Lock) (now : ℕ) (bus : Bus) (d : Dialog)
    → IsUnrepeated clock l.start_at
    → IsUnrepeated clock l.end_at
    → is_empty l.id ≡ false
    → is_empty (trim l.title) ≡ false
    → is_filled l.products ≡ true
    → (submit clock (new_form clock now bus (open_lock (some l) d))).calls
      ≡ update_lock l.id (cut l) ∷ []
unfolding new_form open_lock
submit-new_form clock l now bus d from to h k m =
    let (again, calls, kept, free) =
      submit_lem clock (new_form clock now bus (open_lock (some l) d)) (cut l) ""
        (can_submit-inputs_of clock l bus (open_lock (some l) d) k m)
        (body_of-cut clock l from to) in
    calls ∙ rw h refl

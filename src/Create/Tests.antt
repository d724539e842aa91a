-- ===== src/Create/Tests.antt =====
-- The form of a lock, and the theorem there.
use text.Mathlib.Text.{◌==◌ as str_eq}
use release_radar.Prelude.{
  ℕ, zero, suc, ◌+◌, ◌*◌, ◌/◌, ◌%◌, ◌≡◌, Option, String, if◌then◌else◌, refl, true, false, none,
  some, [], ◌∷◌,
}
use release_radar.Prelude.Text.{trim, trim_start, trim_end}
use release_radar.Bus.{new_bus, bump}
use release_radar.Calendar.{day, days_after, next, month_length}
use release_radar.Rollout.{Lock, window}
use release_radar.Schedule.{key, pad}
use release_radar.Prelude.Decimal.{decimal}
use release_radar.Auth.{Dialog, open_lock, close}
use release_radar.Create.{
  Clock, to_local_input, body_of, LockForm, new_form, can_submit, select_all, toggled_products,
  toggle_product, submit, on_created, on_refused, extract_error, update_lock,
}
use release_radar.Create.Times.{LocalTime, local_input, default_start, default_end}
use release_radar.Create.Edits.{cut, submit-new_form}

form_code : Unit {0}
unfolding new_form can_submit select_all toggled_products toggle_product submit on_created
    on_refused extract_error trim trim_start trim_end bump open_lock close default_start default_end
    local_input to_local_input body_of key pad decimal days_after next month_length
form_code = tt

abbrev dialog : Dialog
dialog = open_lock none (record { kind = none; lock_edit = none })

-- The first day of 1970, at UTC. The browser knows the minutes of the first hour.
abbrev local : ℕ → LocalTime
local t = record { day = day 1970 1 1; hours = t / 3600000; minutes = t / 60000 % 60 }

abbrev minute_of : String → ℕ → Option ℕ
unfolding form_code
minute_of text zero = none
minute_of text (suc n) =
    let below = minute_of text n in
    if str_eq text (local_input (local (n * 60000))) then some (n * 60000) else below

abbrev clock : Clock
unfolding form_code
clock = record { fields = local; date = λ text. minute_of text 60 }

abbrev blank : LockForm
blank = new_form clock 34980000 new_bus dialog

abbrev titled : LockForm
titled = record blank { inputs = record blank.inputs { title = " Bug 4029 " } }

submittable : (can_submit blank ≡ false) × (can_submit titled ≡ true)
unfolding form_code
submittable = (refl, refl)

chosen :
    (toggle_product "monalesy" (toggle_product "operator" titled)).inputs.products
    ≡ "operator" ∷ "monalesy" ∷ []
unfolding form_code
chosen = refl

-- Without a product a form cannot be submitted.
emptied : can_submit (toggle_product "operator" (toggle_product "operator" titled)) ≡ false
unfolding form_code
emptied = refl

errors :
    (extract_error (some " no title\n") none ≡ "no title")
    × (extract_error (some " ") (some "Http failure") ≡ "Http failure")
unfolding form_code
errors = (refl, refl)

abbrev now : LocalTime
now = record { day = day 2026 5 31; hours = 9; minutes = 47 }

defaults : (default_start now ≡ "2026-05-31T09:00") × (default_end now ≡ "2026-06-01T09:00")
unfolding form_code
defaults = (refl, refl)

abbrev bug : Lock
bug = record {
  id = "l-2";
  title = "Master Branch Bug";
  description = "";
  contact = "";
  start_at = 120000 + 30000;
  end_at = 600000;
  products = "operator" ∷ [];
  kind = window;
}

submit-new_form_example :
    (submit clock (new_form clock 34980000 new_bus (open_lock (some bug) dialog))).calls
    ≡ update_lock "l-2" (cut bug) ∷ []
unfolding form_code
submit-new_form_example = submit-new_form clock bug 34980000 new_bus dialog refl refl refl refl refl

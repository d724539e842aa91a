-- ===== src/Create.antt =====
-- frontend/src/app/features/create/create-lock-modal.component.ts: the form of a lock. The
-- browser's local time is a parameter; the calls of the API that were made are kept, newest first.
pub mod Submit
pub mod Rollouts
pub mod Times
pub mod Edits
mod Tests
use text.Mathlib.Text.{◌==◌ as str_eq}
use release_radar.Prelude.{
  ℕ, Bool, true, false, not, ◌&&◌, String, Option, none, some, List, [], ◌∷◌, ◌++◌, find, includes,
  without, if◌then◌else◌,
}
use release_radar.Prelude.Text.{trim, is_empty}
use release_radar.Bus.{Bus, bump}
use release_radar.Rollout.{Product, RolloutType, Lock, LockKind, manual}
use release_radar.Stage.{PlannedStage, cascade_stages, CascadeStage}
use release_radar.Detail.{parse_pair}
use release_radar.Auth.{Dialog, close}
use release_radar.Create.Times.{LocalTime, local_input, default_start, default_end}

abbrev pub is_some {ℓ} : {A : Type ℓ} → Option A → Bool
is_some none = false
is_some (some a) = true

abbrev pub is_filled {ℓ} : {A : Type ℓ} → List A → Bool
is_filled [] = false
is_filled (x ∷ xs) = true

pub record LockBody : Type 0 where
  pub title : String
  pub description : String
  pub contact : String
  pub start_at : ℕ
  pub end_at : ℕ
  pub products : List String
  pub kind : LockKind

pub data Call : Type 0 where
  create_lock : LockBody → Call
  update_lock : (id : String) → LockBody → Call

-- What the inputs hold.
pub record LockInputs : Type 0 where
  pub title : String
  pub description : String
  pub contact : String
  pub start : String
  pub end : String
  pub products : List String
  pub kind : LockKind

pub record LockForm : Type 0 where
  pub edit_id : Option String
  pub inputs : LockInputs
  pub submitting : Bool
  pub error : Option String
  pub calls : List Call
  pub bus : Bus
  pub dialog : Dialog

-- The browser's local time: the fields of a moment, and the moment that a `Date` of a text has, with
-- nothing for an invalid one.
pub record Clock : Type 0 where
  pub fields : ℕ → LocalTime
  pub date : String → Option ℕ

-- `toLocalInput`
unfoldable pub to_local_input : Clock → ℕ → String
unfolding local_input
to_local_input clock t = local_input (clock.fields t)

abbrev pub inputs_of : Clock → Lock → LockInputs
inputs_of clock l = record {
  title = l.title;
  description = l.description;
  contact = l.contact;
  start = to_local_input clock l.start_at;
  end = to_local_input clock l.end_at;
  products = l.products;
  kind = l.kind;
}

abbrev pub new_inputs : Clock → ℕ → LockInputs
new_inputs clock now = record {
  title = "";
  description = "";
  contact = "";
  start = default_start (clock.fields now);
  end = default_end (clock.fields now);
  products = "all" ∷ [];
  kind = manual;
}

abbrev pub form : Option String → LockInputs → Bus → Dialog → LockForm
form id inputs bus dialog = record {
  edit_id = id;
  inputs = inputs;
  submitting = false;
  error = none;
  calls = [];
  bus = bus;
  dialog = dialog;
}

abbrev pub open_form : Option Lock → Clock → ℕ → Bus → Dialog → LockForm
open_form none clock now bus dialog = form none (new_inputs clock now) bus dialog
open_form (some l) clock now bus dialog = form (some l.id) (inputs_of clock l) bus dialog

-- The form opens on the lock that the dialogs' store has to edit, if it has one.
unfoldable pub new_form : Clock → ℕ → Bus → Dialog → LockForm
new_form clock now bus dialog = open_form dialog.lock_edit clock now bus dialog

unfoldable pub can_submit : LockForm → Bool
can_submit f =
    not (is_empty (trim f.inputs.title))
    && (not (is_empty f.inputs.start)
        && (not (is_empty f.inputs.end) && (is_filled f.inputs.products && not f.submitting)))

unfoldable pub select_all : LockForm → LockForm
select_all f = record f { inputs = record f.inputs { products = "all" ∷ [] } }

unfoldable pub toggled_products : List String → String → List String
toggled_products cur id =
    if includes cur "all"
    then id ∷ []
    else if includes cur id
    then without cur id
    else cur ++ id ∷ []

unfoldable pub toggle_product : String → LockForm → LockForm
unfolding toggled_products
toggle_product id f = record f {
  inputs = record f.inputs { products = toggled_products f.inputs.products id };
}

-- An empty id creates, as `id ? … : …` does.
abbrev pub request : Option String → LockBody → Call
request none body = create_lock body
request (some id) body = if is_empty id then create_lock body else update_lock id body

abbrev pub body_with : LockInputs → Option ℕ → Option ℕ → Option LockBody
body_with i (some start) (some end) = some (record {
  title = trim i.title;
  description = i.description;
  contact = i.contact;
  start_at = start;
  end_at = end;
  products = i.products;
  kind = i.kind;
})
body_with i (some start) none = none
body_with i none end = none

-- `toISOString` throws at an invalid date: nothing.
unfoldable pub body_of : Clock → LockInputs → Option LockBody
body_of clock i = body_with i (clock.date i.start) (clock.date i.end)

-- Where it throws, the form has been marked before, and nothing is called.
abbrev pub send : Option LockBody → LockForm → LockForm
send none f = f
send (some body) f = record f { calls = request f.edit_id body ∷ f.calls }

unfoldable pub submit : Clock → LockForm → LockForm
unfolding can_submit body_of
submit clock f =
    if not (can_submit f)
    then f
    else send (body_of clock f.inputs) (record f { submitting = true; error = none })

-- The answer to the call: the form closes, or shows the error.
unfoldable pub on_created : LockForm → LockForm
unfolding bump close
on_created f = record f { bus = bump f.bus; dialog = close f.dialog }

unfoldable pub on_refused : String → LockForm → LockForm
on_refused message f = record f { submitting = false; error = some message }

-- `extractError`: the body of the response, if it is a text that is not blank, or the message.
unfoldable pub extract_error : Option String → Option String → String
extract_error none message = elim message [ none ↦ "Unexpected error" | some m ↦ m ]
extract_error (some body) message =
    if is_empty (trim body)
    then elim message [ none ↦ "Unexpected error" | some m ↦ m ]
    else trim body

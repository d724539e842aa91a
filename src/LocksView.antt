-- ===== src/LocksView.antt =====
-- frontend/src/app/features/locks/locks-view/locks-view.component.ts and
-- features/contacts/contacts-view.component.ts: the list of locks with the deletion of one, and which
-- product needs a change request. The buttons are shown as the templates say; the calls of the API that
-- were made are kept, newest first.
pub mod Deletion
mod Tests
use text.Mathlib.Text.{◌==◌ as str_eq}
use release_radar.Prelude.{
  Bool, true, false, not, ◌&&◌, String, Option, none, some, List, [], ◌∷◌, if◌then◌else◌,
}
use release_radar.Bus.{Bus, bump}
use release_radar.Rollout.{Lock, Product}
use release_radar.Auth.{Dialog, open_lock}

pub record Locks : Type 0 where
  pub can_edit : Bool
  pub locks : List Lock
  pub loaded : Bool
  pub confirming_id : Option String
  pub deletes : List String
  pub bus : Bus
  pub dialog : Dialog

abbrev pub new_locks : Bool → Bus → Dialog → Locks
new_locks can_edit bus dialog = record {
  can_edit = can_edit;
  locks = [];
  loaded = false;
  confirming_id = none;
  deletes = [];
  bus = bus;
  dialog = dialog;
}

-- A failed request gives no locks.
abbrev pub or_empty {ℓ} : {A : Type ℓ} → Option (List A) → List A
or_empty none = []
or_empty (some xs) = xs

unfoldable pub on_locks : Option (List Lock) → Locks → Locks
on_locks answer s = record s { locks = or_empty answer; loaded = true }

-- The buttons of an editor.
unfoldable pub new_lock : Locks → Locks
unfolding open_lock
new_lock s = if not s.can_edit then s else record s { dialog = open_lock none s.dialog }

unfoldable pub edit : Lock → Locks → Locks
unfolding open_lock
edit l s = if not s.can_edit then s else record s { dialog = open_lock (some l) s.dialog }

abbrev pub is_confirming : Option String → String → Bool
is_confirming none id = false
is_confirming (some c) id = str_eq c id

-- The lock's deletion is asked; the button is not there while it is.
unfoldable pub ask_remove : Lock → Locks → Locks
ask_remove l s =
    if s.can_edit && not (is_confirming s.confirming_id l.id)
    then record s { confirming_id = some l.id }
    else s

abbrev pub cancel_remove : Locks → Locks
cancel_remove s = record s { confirming_id = none }

-- Its button is there for the lock whose deletion was asked.
unfoldable pub confirm_remove : Lock → Locks → Locks
confirm_remove l s =
    if s.can_edit && is_confirming s.confirming_id l.id
    then record s { deletes = l.id ∷ s.deletes }
    else s

-- The answers to the call.
unfoldable pub on_deleted : Locks → Locks
unfolding bump
on_deleted s = record s { confirming_id = none; bus = bump s.bus }

unfoldable pub on_delete_failed : Locks → Locks
on_delete_failed s = record s { confirming_id = none }

-- The page of the contacts.
unfoldable pub snow_required : Product → Bool
snow_required p = not (str_eq p.id "microservices")

-- ===== src/LocksView/Tests.antt =====
-- The page of the locks, and the theorem there.
use release_radar.Prelude.{◌≡◌, ◌⊎◌, refl, true, String, none, some, List, [], ◌∷◌, All}
use release_radar.Bus.{new_bus, bump}
use release_radar.Rollout.{Lock, manual}
use release_radar.Auth.{Dialog, open_lock}
use release_radar.LocksView.{
  new_locks, on_locks, new_lock, edit, ask_remove, confirm_remove, on_deleted, on_delete_failed,
}
use release_radar.LocksView.Deletion.{
  Click, got_locks, asked, confirmed, deleted, cancelled, click, clicks, asked_ids, IsIn,
  clicks_lem,
}

locks_code : Unit {0}
unfolding on_locks new_lock edit ask_remove confirm_remove on_deleted on_delete_failed click bump
    open_lock
locks_code = tt

abbrev dialog : Dialog
dialog = record { kind = none; lock_edit = none }

abbrev a_lock : String → Lock
a_lock id = record {
  id = id;
  title = "Freeze";
  description = "";
  contact = "";
  start_at = 0;
  end_at = 10;
  products = "all" ∷ [];
  kind = manual;
}

-- The second lock is asked for and confirmed, the first is not confirmed.
abbrev session : List Click
session =
    got_locks (some (a_lock "a" ∷ a_lock "b" ∷ []))
    ∷ asked (a_lock "a")
    ∷ confirmed (a_lock "b")
    ∷ cancelled
    ∷ asked (a_lock "b")
    ∷ confirmed (a_lock "b")
    ∷ deleted
    ∷ []

deletes : (clicks session (new_locks true new_bus dialog)).deletes ≡ "b" ∷ []
unfolding locks_code
deletes = refl

clicks_lem_example :
    All (IsIn (asked_ids session [])) (clicks session (new_locks true new_bus dialog)).deletes
    × ((true ≡ true)
        ⊎ (((clicks session (new_locks true new_bus dialog)).deletes ≡ [])
            × ((clicks session (new_locks true new_bus dialog)).dialog ≡ dialog)))
clicks_lem_example = clicks_lem session (new_locks true new_bus dialog) refl refl

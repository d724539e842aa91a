-- ===== src/LocksView/Deletion.antt =====
-- locks-view.component.ts: what is deleted over a session.
use release_radar.Prelude.{
  ◌≡◌, ◌∙◌, sym, subst, refl, true, false, not, ◌&&◌, ◌⊎◌, inl, inr, String, Option, none, some,
  List, [], ◌∷◌, All, includes, Bool-cases, eq_iff, arith,
}
use release_radar.Rollout.{Lock}
use release_radar.LocksView.{
  Locks, on_locks, new_lock, edit, is_confirming, ask_remove, cancel_remove, confirm_remove,
  on_deleted, on_delete_failed,
}

pub data Click : Type 0 where
  got_locks : Option (List Lock) → Click
  created : Click
  edited : Lock → Click
  asked : Lock → Click
  cancelled : Click
  confirmed : Lock → Click
  deleted : Click
  refused : Click

unfoldable pub click : Click → Locks → Locks
unfolding on_locks new_lock edit ask_remove confirm_remove on_deleted on_delete_failed
click (got_locks answer) s = on_locks answer s
click created s = new_lock s
click (edited l) s = edit l s
click (asked l) s = ask_remove l s
click cancelled s = cancel_remove s
click (confirmed l) s = confirm_remove l s
click deleted s = on_deleted s
click refused s = on_delete_failed s

abbrev pub clicks : List Click → Locks → Locks
clicks [] s = s
clicks (c ∷ cs) s = clicks cs (click c s)

-- The locks whose deletion is asked in the session, newest first, before those asked already.
abbrev pub asked_ids : List Click → List String → List String
asked_ids [] ids = ids
asked_ids (asked l ∷ cs) ids = asked_ids cs (l.id ∷ ids)
asked_ids (got_locks answer ∷ cs) ids = asked_ids cs ids
asked_ids (created ∷ cs) ids = asked_ids cs ids
asked_ids (edited l ∷ cs) ids = asked_ids cs ids
asked_ids (cancelled ∷ cs) ids = asked_ids cs ids
asked_ids (confirmed l ∷ cs) ids = asked_ids cs ids
asked_ids (deleted ∷ cs) ids = asked_ids cs ids
asked_ids (refused ∷ cs) ids = asked_ids cs ids

abbrev pub IsIn : List String → String → Type 0
IsIn ids id = includes ids id ≡ true

-- The lock that is being confirmed, if there is one, was asked for.
abbrev IsAsked : List String → Option String → Type 0
IsAsked ids none = Unit
IsAsked ids (some c) = IsIn ids c

record AreAsked (ids : List String) (s : Locks) : Type 0 where
  confirming : IsAsked ids s.confirming_id
  deletes : All (IsIn ids) s.deletes

IsIn-self : (id : String) (ids : List String) → IsIn (id ∷ ids) id
IsIn-self id ids = ground (arith, eq_iff id id)

IsIn-cons : (id j : String) (ids : List String) → IsIn ids j → IsIn (id ∷ ids) j
IsIn-cons id j ids h = ground arith

All-IsIn-cons : (id : String) (ids js : List String) → All (IsIn ids) js → All (IsIn (id ∷ ids)) js
All-IsIn-cons id ids [] h = tt
All-IsIn-cons id ids (j ∷ js) h = (IsIn-cons id j ids h.0, All-IsIn-cons id ids js h.1)

IsAsked-cons :
    (id : String) (ids : List String) (o : Option String) → IsAsked ids o → IsAsked (id ∷ ids) o
IsAsked-cons id ids none h = tt
IsAsked-cons id ids (some c) h = IsIn-cons id c ids h

confirming_asked :
    (ids : List String) (o : Option String) (id : String)
    → IsAsked ids o
    → is_confirming o id ≡ true
    → IsIn ids id
confirming_asked ids none id h e = cc
confirming_asked ids (some c) id h e = subst (IsIn ids) ((eq_iff c id).0 e) h

ask-AreAsked :
    (l : Lock) (ids : List String) (s : Locks)
    → AreAsked ids s
    → AreAsked (l.id ∷ ids) (ask_remove l s)
unfolding ask_remove
ask-AreAsked l ids s h =
    elim (Bool-cases (s.can_edit && not (is_confirming s.confirming_id l.id))) [
      | inl e ↦ rw e (record {
        confirming = IsIn-self l.id ids;
        deletes = All-IsIn-cons l.id ids s.deletes h.deletes;
      })
      | inr e ↦ rw e (record {
        confirming = IsAsked-cons l.id ids s.confirming_id h.confirming;
        deletes = All-IsIn-cons l.id ids s.deletes h.deletes;
      })
    ]

confirm-AreAsked :
    (l : Lock) (ids : List String) (s : Locks) → AreAsked ids s → AreAsked ids (confirm_remove l s)
unfolding confirm_remove
confirm-AreAsked l ids s h = elim (Bool-cases (s.can_edit && is_confirming s.confirming_id l.id)) [
  | inl e ↦ rw e (record {
    confirming = h.confirming;
    deletes = (confirming_asked ids s.confirming_id l.id h.confirming (ground arith), h.deletes);
  })
  | inr e ↦ rw e h
]

clicks-AreAsked :
    (cs : List Click) (ids : List String) (s : Locks)
    → AreAsked ids s
    → AreAsked (asked_ids cs ids) (clicks cs s)
unfolding click
clicks-AreAsked [] ids s h = h
clicks-AreAsked (asked l ∷ cs) ids s h =
    clicks-AreAsked cs (l.id ∷ ids) (ask_remove l s) (ask-AreAsked l ids s h)
clicks-AreAsked (confirmed l ∷ cs) ids s h =
    clicks-AreAsked cs ids (confirm_remove l s) (confirm-AreAsked l ids s h)
clicks-AreAsked (got_locks answer ∷ cs) ids s h =
    clicks-AreAsked cs ids (on_locks answer s)
      (record { confirming = h.confirming; deletes = h.deletes })
clicks-AreAsked (created ∷ cs) ids s h = clicks-AreAsked cs ids (new_lock s) (ground arith)
clicks-AreAsked (edited l ∷ cs) ids s h = clicks-AreAsked cs ids (edit l s) (ground arith)
clicks-AreAsked (cancelled ∷ cs) ids s h =
    clicks-AreAsked cs ids (cancel_remove s) (record { confirming = tt; deletes = h.deletes })
clicks-AreAsked (deleted ∷ cs) ids s h =
    clicks-AreAsked cs ids (on_deleted s) (record { confirming = tt; deletes = h.deletes })
clicks-AreAsked (refused ∷ cs) ids s h =
    clicks-AreAsked cs ids (on_delete_failed s) (record { confirming = tt; deletes = h.deletes })

click_readonly :
    (c : Click) (s : Locks)
    → s.can_edit ≡ false
    → ((click c s).can_edit ≡ false)
      × ((click c s).deletes ≡ s.deletes)
      × ((click c s).dialog ≡ s.dialog)
unfolding click on_locks new_lock edit ask_remove confirm_remove on_deleted on_delete_failed
click_readonly (got_locks answer) s h = (h, refl, refl)
click_readonly created s h = ground arith
click_readonly (edited l) s h = ground arith
click_readonly (asked l) s h = ground arith
click_readonly cancelled s h = (h, refl, refl)
click_readonly (confirmed l) s h = ground arith
click_readonly deleted s h = (h, refl, refl)
click_readonly refused s h = (h, refl, refl)

clicks_readonly :
    (cs : List Click) (s : Locks)
    → s.can_edit ≡ false
    → ((clicks cs s).deletes ≡ s.deletes) × ((clicks cs s).dialog ≡ s.dialog)
clicks_readonly [] s h = (refl, refl)
clicks_readonly (c ∷ cs) s h =
    let (still, same, shown) = click_readonly c s h in
    let (d, o) = clicks_readonly cs (click c s) still in (d ∙ same, o ∙ shown)

-- Over every session of a page that has deleted nothing and asks for no confirmation, each lock that is
-- deleted had its deletion asked in a click of its own; and the user may edit, or nothing is deleted and
-- the dialog is as it was.
pub clicks_lem :
    (cs : List Click) (s : Locks)
    → s.confirming_id ≡ none
    → s.deletes ≡ []
    → All (IsIn (asked_ids cs [])) (clicks cs s).deletes
      × ((s.can_edit ≡ true) ⊎ (((clicks cs s).deletes ≡ []) × ((clicks cs s).dialog ≡ s.dialog)))
clicks_lem cs s e d = (
  (clicks-AreAsked cs [] s (record {
    confirming = subst (IsAsked []) (sym e) tt;
    deletes = subst (All (IsIn [])) (sym d) tt;
  })).deletes,
  elim (Bool-cases s.can_edit) [
    | inl editor ↦ inl editor
    | inr reader ↦ let (same, shown) = clicks_readonly cs s reader in inr (same ∙ d, shown)
  ],
)

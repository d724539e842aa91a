-- ===== src/Contacts/Tests.antt =====
-- The card of the contacts.
use release_radar.Prelude.{◌≡◌, refl, true, String, [], ◌∷◌, map, length}
use release_radar.Prelude.Dict.{lookup, insert}
use release_radar.Prelude.Text.{trim, trim_start, trim_end}
use release_radar.Contacts.{
  Card, new_card, toggle_group, filtered, selected, update_selected, remove_selected, group_from,
  grouped, is_open, select_contact, add_contact,
}

contacts_code : Unit {0}
unfolding toggle_group filtered selected update_selected remove_selected group_from grouped is_open
    select_contact add_contact lookup insert trim trim_start trim_end
contacts_code = tt

-- A letter's case is left alone here.
abbrev lower : String → String
lower s = s

found :
    (map (λ c. c.id) (filtered lower (record new_card { query = " solace " })) ≡ "c-1" ∷ "c-2" ∷ [])
    × (is_open (record new_card { query = "solace" }) "operator" ≡ true)
unfolding contacts_code
found = (refl, refl)

abbrev removed : Card
removed = remove_selected lower new_card

next_shown : (removed.selected_id ≡ "c-2") × (length removed.contacts ≡ 7)
unfolding contacts_code
next_shown = (refl, refl)

abbrev drafted : Card
drafted = record new_card { draft = record new_card.draft { name = "Eva"; snow = "" } }

added :
    (map (λ c. c.snow) (filtered lower (record (add_contact "9" drafted) { query = "Eva" }))
      ≡ "CHG required" ∷ "—" ∷ [])
    × ((add_contact "9" drafted).selected_id ≡ "c-9")
unfolding contacts_code
added = (refl, refl)

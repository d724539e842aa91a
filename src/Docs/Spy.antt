-- ===== src/Docs/Spy.antt =====
-- docs.jsx: the section that is followed while the page scrolls.
use text.Mathlib.Text.{◌==◌ as str_eq}
use release_radar.Prelude.{
  ◌≡◌, ◌∙◌, ap, refl, true, false, String, Option, some, List, [], ◌∷◌, ◌++◌, All, if◌then◌else◌,
}
use release_radar.Docs.{
  Docs, Anchor, is_passed, spy_from, section_or, first_section, sections_of, on_scroll,
}

spy_from-append :
    (cur : Option String) (front back : List Anchor)
    → spy_from cur (front ++ back) ≡ spy_from (spy_from cur front) back
unfolding spy_from
spy_from-append cur [] back = refl
spy_from-append cur (a ∷ front) back =
    spy_from-append (if is_passed a then some a.id else cur) front back

abbrev pub IsAhead : Anchor → Type 0
IsAhead a = is_passed a ≡ false

spy_from_ahead :
    (cur : Option String) (anchors : List Anchor) → All IsAhead anchors → spy_from cur anchors ≡ cur
unfolding spy_from
spy_from_ahead cur [] h = refl
spy_from_ahead cur (a ∷ anchors) h = rw h.0 (spy_from_ahead cur anchors h.1)

spy_from_passed :
    (cur : Option String) (a : Anchor) (back : List Anchor)
    → is_passed a ≡ true
    → All IsAhead back
    → spy_from cur (a ∷ back) ≡ some a.id
unfolding spy_from
spy_from_passed cur a back p h = rw p (spy_from_ahead (some a.id) back h)

-- While the page scrolls, the section is that of the last anchor, in the order of the document, whose top
-- is less than 80 pixels below that of the page's body, if there is one and its name is not empty; and if
-- no anchor is, it is the first section of the tab, or stays as it was where the tab has none.
pub on_scroll_lem :
    (d : Docs) (front back : List Anchor) (a : Anchor)
    → is_passed a ≡ true
    → str_eq a.id "" ≡ false
    → All IsAhead back
    → ((on_scroll (front ++ a ∷ back) d).section ≡ a.id)
      × ((on_scroll back d).section ≡ section_or d.section (first_section (sections_of d.tab)))
unfolding on_scroll
on_scroll_lem d front back a p n h = (
  ap (section_or d.section) (
        spy_from-append (first_section (sections_of d.tab)) front (a ∷ back)
        ∙ spy_from_passed (spy_from (first_section (sections_of d.tab)) front) a back p h)
      ∙ rw n refl,
  ap (section_or d.section) (spy_from_ahead (first_section (sections_of d.tab)) back h),
)

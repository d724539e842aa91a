-- ===== src/MasterData/Selection.antt =====
-- master-data.jsx: an editor with items always has one selected.
use text.Mathlib.Text.{◌==◌ as str_eq}
use release_radar.Prelude.{
  ◌≡◌, refl, ap, ◌∙◌, Bool, true, false, not, String, Option, none, some, List, [], ◌∷◌, ◌++◌, map,
  filter, find, if◌then◌else◌, arith, eq_iff, eq_refl, Bool-cases, inl, inr, sym,
}
use release_radar.MasterData.{
  Editor, is_some, is_id, first_id, init, selected, update, add, remove, select,
}

module _ {A : Type 0} (id_of : A → String) where
  abbrev pub is_filled : List A → Bool
  is_filled [] = false
  is_filled (x ∷ xs) = true

  -- Some item is selected, unless there is none.
  abbrev pub IsValid : Editor A → Type 0
  IsValid e = is_some (selected id_of e) ≡ is_filled e.items

  abbrev finds : Option String → List A → Bool
  finds o xs = is_some (find (λ x. is_id (id_of x) o) xs)

  finds-append :
      (id : String) (xs : List A) (x : A) → id_of x ≡ id → finds (some id) (xs ++ x ∷ []) ≡ true
  finds-append id [] x h = ground (arith, eq_iff (id_of x) id)
  finds-append id (y ∷ xs) x h = ground (arith, finds-append id xs x h)

  filled-append : (xs : List A) (x : A) → is_filled (xs ++ x ∷ []) ≡ true
  filled-append [] x = refl
  filled-append (y ∷ xs) x = refl

  finds_first : (xs : List A) → finds (first_id id_of xs) xs ≡ is_filled xs
  finds_first [] = refl
  finds_first (x ∷ xs) = ground (arith, eq_refl (id_of x))

  -- Removing another item leaves the selected one.
  finds-filter :
      (id other : String) (xs : List A)
      → str_eq id other ≡ false
      → finds (some other) (filter (λ x. not (str_eq (id_of x) id)) xs) ≡ finds (some other) xs
  finds-filter id other [] h = refl
  finds-filter id other (x ∷ xs) h = ground (
    arith,
    finds-filter id other xs h,
    eq_iff (id_of x) id,
    eq_iff (id_of x) other,
    eq_iff id other,
  )

  finds_filled : (o : Option String) (xs : List A) → finds o xs ≡ true → is_filled xs ≡ true
  finds_filled o [] h = h
  finds_filled o (x ∷ xs) h = refl

  finds-none : (xs : List A) → finds none xs ≡ false
  finds-none [] = refl
  finds-none (x ∷ xs) = finds-none xs

  -- A removal: the items left have one selected, if there are any.
  remove-IsValid_of :
      (id : String) (o : Option String) (xs : List A)
      → finds o xs ≡ is_filled xs
      → let next : List A = filter (λ x. not (str_eq (id_of x) id)) xs in
        finds (if is_id id o then first_id id_of next else o) next ≡ is_filled next
  remove-IsValid_of id none [] h = refl
  remove-IsValid_of id none (x ∷ xs) h = absurd (ground (arith, h, finds-none xs))
  remove-IsValid_of id (some other) [] h = ground arith
  remove-IsValid_of id (some other) (x ∷ xs) h =
      let next : List A = filter (λ y. not (str_eq (id_of y) id)) (x ∷ xs) in
      elim (Bool-cases (str_eq id other)) [
        | inl e ↦ rw e (finds_first next)
        | inr e ↦
            let found : finds (some other) next ≡ true = finds-filter id other (x ∷ xs) e ∙ h in
            rw e (found ∙ sym (finds_filled (some other) next found))
      ]

  remove-IsValid : (id : String) (e : Editor A) → IsValid e → IsValid (remove id_of id e)
  unfolding remove selected
  remove-IsValid id e h = remove-IsValid_of id e.selected_id e.items h

  add-IsValid : (x : A) (e : Editor A) → IsValid (add id_of x e)
  unfolding add selected
  add-IsValid x e = finds-append (id_of x) e.items x refl ∙ sym (filled-append e.items x)

  init-IsValid : (xs : List A) → IsValid (init id_of xs)
  unfolding init selected
  init-IsValid xs = finds_first xs

  finds-map :
      (o p : Option String) (f : A → A) (xs : List A)
      → ((x : A) → id_of (f x) ≡ id_of x)
      → finds o (map (λ x. if is_id (id_of x) p then f x else x) xs) ≡ finds o xs
  finds-map o p f [] h = refl
  finds-map o p f (x ∷ xs) h = ground (arith, h x, finds-map o p f xs h, ap (λ i. is_id i o) (h x))

  filled-map : (f : A → A) (xs : List A) → is_filled (map f xs) ≡ is_filled xs
  filled-map f [] = refl
  filled-map f (x ∷ xs) = refl

  update-IsValid :
      (f : A → A) (e : Editor A)
      → ((x : A) → id_of (f x) ≡ id_of x)
      → IsValid e
      → IsValid (update id_of f e)
  unfolding update selected
  update-IsValid f e h v =
      finds-map e.selected_id e.selected_id f e.items h ∙ v ∙ sym (filled-map _ e.items)

  -- What the user does to an editor: a patch keeps the item's id, and a click is on an item.
  pub data Edit : Editor A → Editor A → Type 0 where
    adds : {e : Editor A} (x : A) → Edit e (add id_of x e)
    removes : {e : Editor A} (id : String) → Edit e (remove id_of id e)
    patches :
        {e : Editor A} (f : A → A) → ((x : A) → id_of (f x) ≡ id_of x) → Edit e (update id_of f e)
    selects :
        {e : Editor A} (x : A)
        → is_some (selected id_of (select id_of x e)) ≡ true
        → Edit e (select id_of x e)

  pub data Edits (start : Editor A) : Editor A → Type 0 where
    unedited : Edits start start
    then_ : {e f : Editor A} → Edits start e → Edit e f → Edits start f

  Edit-IsValid : {e f : Editor A} → Edit e f → IsValid e → IsValid f
  unfolding select selected
  Edit-IsValid (adds {e} x) v = add-IsValid x e
  Edit-IsValid (removes {e} id) v = remove-IsValid id e v
  Edit-IsValid (patches {e} f h) v = update-IsValid f e h v
  Edit-IsValid (selects {e} x h) v = h ∙ sym (finds_filled (some (id_of x)) e.items h)

  -- However an editor was edited since it opened, an item is selected, unless there is none.
  pub Edits-IsValid : (xs : List A) {e : Editor A} → Edits (init id_of xs) e → IsValid e
  Edits-IsValid xs unedited = init-IsValid xs
  Edits-IsValid xs (then_ es e) = Edit-IsValid e (Edits-IsValid xs es)

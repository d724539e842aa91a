-- ===== src/MasterData/Store.antt =====
-- master-data.jsx: what the editors promise, as a store of entries under their ids with one chosen id,
-- which forgets the order of the list. Each edit of the list is a step of the store.
use mathlib.Core.Path.{fun_ext}
use text.Mathlib.Text.{◌==◌ as str_eq}
use release_radar.Prelude.{
  ◌≡◌, refl, ap, ◌∙◌, ◌⊎◌, inl, inr, true, false, not, String, Option, none, some, List, [], ◌∷◌,
  ◌++◌, map, filter, find, if◌then◌else◌, arith, eq_iff, Bool-cases, sym,
}
use release_radar.MasterData.{
  Editor, is_some, is_id, first_id, init, selected, update, add, remove, select,
}
use release_radar.MasterData.Selection.{
  is_filled, IsValid, Edit, adds, removes, patches, selects, Edits, unedited, then_, Edits-IsValid,
}

-- What an editor offers.
pub data Action (A : Type 0) : Type 0 where
  puts : A → Action A
  drops : (id : String) → Action A
  alters : (A → A) → Action A
  chooses : A → Action A

pub record Store (A : Type 0) : Type 0 where
  pub entries : String → Option A
  pub chosen : Option String

abbrev pub or_else {ℓ} : {A : Type ℓ} → Option A → Option A → Option A
or_else none b = b
or_else (some a) b = some a

abbrev pub altered {ℓ} : {A : Type ℓ} → (A → A) → Option A → Option A
altered f none = none
altered f (some a) = some (f a)

module _ {A : Type 0} where
  abbrev pub at : (String → Option A) → Option String → Option A
  at m none = none
  at m (some j) = m j

  -- The chosen id has an entry, or there are no entries.
  abbrev pub IsChosen : Store A → Type 0
  IsChosen s = (is_some (at s.entries s.chosen) ≡ true) ⊎ (s.entries ≡ (λ _. none))

  -- An entry under an id that is taken keeps its place in front of the new one.
  abbrev pub extended : (String → Option A) → String → A → String → Option A
  extended m id x j = or_else (m j) (if str_eq id j then some x else none)

  abbrev pub dropped : (String → Option A) → String → String → Option A
  dropped m id j = if str_eq id j then none else m j

  abbrev pub changed : (String → Option A) → Option String → (A → A) → String → Option A
  changed m o f j = if is_id j o then altered f (m j) else m j

module _ {A : Type 0} (id_of : A → String) where
  -- The steps of a store, each under the action that it is.
  pub data Change (s t : Store A) : Action A → Type 0 where
    put :
        (x : A)
        → t.entries ≡ extended s.entries (id_of x) x
        → t.chosen ≡ some (id_of x)
        → Change s t (puts x)
    drop :
        (id : String)
        → t.entries ≡ dropped s.entries id
        → (is_id id s.chosen ≡ true) ⊎ (t.chosen ≡ s.chosen)
        → IsChosen t
        → Change s t (drops id)
    alter :
        (f : A → A)
        → t.entries ≡ changed s.entries s.chosen f
        → t.chosen ≡ s.chosen
        → Change s t (alters f)
    choose :
        (x : A)
        → t.entries ≡ s.entries
        → t.chosen ≡ some (id_of x)
        → is_some (s.entries (id_of x)) ≡ true
        → Change s t (chooses x)

  -- The steps of a list of actions, the last one first.
  pub data Changes (s : Store A) : List (Action A) → Store A → Type 0 where
    unchanged : Changes s [] s
    later :
        {t u : Store A} {done : List (Action A)} {a : Action A}
        → Changes s done t
        → Change t u a
        → Changes s (a ∷ done) u

  -- What the user does in an edit.
  abbrev pub action : {e f : Editor A} → Edit id_of e f → Action A
  action (adds x) = puts x
  action (removes id) = drops id
  action (patches f h) = alters f
  action (selects x h) = chooses x

  abbrev pub actions : {e f : Editor A} → Edits id_of e f → List (Action A)
  actions unedited = []
  actions (then_ es edit) = action edit ∷ actions es

  abbrev pub entry : List A → String → Option A
  entry xs j = find (λ x. str_eq (id_of x) j) xs

  abbrev pub store : Editor A → Store A
  store e = record { entries = entry e.items; chosen = e.selected_id }

  entry-append :
      (xs : List A) (x : A) (j : String)
      → entry (xs ++ x ∷ []) j ≡ extended (entry xs) (id_of x) x j
  entry-append [] x j = ground arith
  entry-append (y ∷ xs) x j = ground (arith, entry-append xs x j)

  entry-filter :
      (xs : List A) (id j : String)
      → entry (filter (λ x. not (str_eq (id_of x) id)) xs) j ≡ dropped (entry xs) id j
  entry-filter [] id j = ground arith
  entry-filter (x ∷ xs) id j =
      ground (arith, entry-filter xs id j, eq_iff (id_of x) id, eq_iff (id_of x) j, eq_iff id j)

  is_id-eq : (a b : String) (o : Option String) → str_eq a b ≡ true → is_id a o ≡ is_id b o
  is_id-eq a b o h = ap (λ c. is_id c o) ((eq_iff a b).0 h)

  entry-map :
      (xs : List A) (o : Option String) (f : A → A) (j : String)
      → ((x : A) → id_of (f x) ≡ id_of x)
      → entry (map (λ x. if is_id (id_of x) o then f x else x) xs) j ≡ changed (entry xs) o f j
  entry-map [] o f j h = ground arith
  entry-map (x ∷ xs) o f j h = elim (Bool-cases (str_eq (id_of x) j)) [
    | inl same ↦ ground (arith, h x, is_id-eq (id_of x) j o same, ap (λ i. str_eq i j) (h x))
    | inr other ↦ ground (arith, entry-map xs o f j h, ap (λ i. str_eq i j) (h x))
  ]

  find_no_id : (xs : List A) → find (λ (x : A). false) xs ≡ none
  find_no_id [] = refl
  find_no_id (x ∷ xs) = find_no_id xs

  found_chosen :
      (xs : List A) (o : Option String) → find (λ x. is_id (id_of x) o) xs ≡ at (entry xs) o
  found_chosen xs none = find_no_id xs
  found_chosen xs (some j) = refl

  chosen_of :
      (xs : List A) (o : Option String)
      → is_some (at (entry xs) o) ≡ is_filled id_of xs
      → IsChosen (record { entries = entry xs; chosen = o })
  chosen_of [] o h = inr refl
  chosen_of (x ∷ xs) o h = inl h

  IsValid-IsChosen : (e : Editor A) → IsValid id_of e → IsChosen (store e)
  unfolding selected
  IsValid-IsChosen e v =
      chosen_of e.items e.selected_id (ap is_some (sym (found_chosen e.items e.selected_id)) ∙ v)

  stays_or_not :
      (id : String) (o : Option String) (next : List A)
      → let after : Option String = if is_id id o then first_id id_of next else o in
        (is_id id o ≡ true) ⊎ (after ≡ o)
  stays_or_not id o next = elim (Bool-cases (is_id id o)) [
    | inl e ↦ inl e
    | inr e ↦ inr (rw e refl)
  ]

  Edit-Change :
      {e f : Editor A} (edit : Edit id_of e f)
      → IsValid id_of f
      → Change (store e) (store f) (action edit)
  unfolding add remove update select selected
  Edit-Change (adds {e} x) v = put x (fun_ext (entry-append e.items x)) refl
  Edit-Change (removes {e} id) v =
      drop id (fun_ext (entry-filter e.items id)) (stays_or_not id e.selected_id _)
        (IsValid-IsChosen (remove id_of id e) v)
  Edit-Change (patches {e} f h) v =
      alter f (fun_ext (λ j. entry-map e.items e.selected_id f j h)) refl
  Edit-Change (selects {e} x h) v = choose x refl refl h

  -- Every session of an editor since it opened is the session of its store under the same actions, in their
  -- order: an item added is a new entry, at which the store looks after the old ones, and is chosen; a removal
  -- drops the entry of its id and leaves the choice of another alone, and what is chosen then has an entry,
  -- unless there is none; a patch changes the chosen entry only, and a click chooses its item, which has an entry.
  pub Edits-Changes :
      (xs : List A) {e : Editor A} (es : Edits id_of (init id_of xs) e)
      → Changes (store (init id_of xs)) (actions es) (store e)
  Edits-Changes xs unedited = unchanged
  Edits-Changes xs (then_ es edit) =
      later (Edits-Changes xs es) (Edit-Change edit (Edits-IsValid id_of xs (then_ es edit)))

-- ===== src/Contacts/Groups.antt =====
-- timeline.jsx: the groups of the contacts.
use text.Mathlib.Text.{◌==◌ as str_eq}
use release_radar.Prelude.{
  ◌≡◌, ◌∙◌, ap, sym, String, List, [], ◌∷◌, ◌++◌, filter, append_assoc, append-nil, eq_iff,
  Bool-cases, inl, inr, arith,
}
use release_radar.Prelude.Dict.{lookup, insert, lookup-insert}
use release_radar.Contacts.{Contact, group_of, group_from, grouped}

abbrev pub of_product : String → List Contact → List Contact
of_product product xs = filter (λ (x : Contact). str_eq x.product product) xs

group_of-insert :
    (x : Contact) (product : String) (m : List (String × List Contact))
    → group_of product (insert x.product (group_of x.product m ++ x ∷ []) m)
      ≡ group_of product m ++ of_product product (x ∷ [])
group_of-insert x product m = elim (Bool-cases (str_eq x.product product)) [
  | inl e ↦
      let p : x.product ≡ product = (eq_iff x.product product).0 e in
      ground (
        arith,
        lookup-insert x.product product (group_of x.product m ++ x ∷ []) m,
        ap (λ k. group_of k m) p,
      )
  | inr e ↦ ground (
    arith,
    lookup-insert x.product product (group_of x.product m ++ x ∷ []) m,
    append-nil (group_of product m),
  )
]

of_product-cons :
    (product : String) (x : Contact) (xs : List Contact)
    → of_product product (x ∷ []) ++ of_product product xs ≡ of_product product (x ∷ xs)
of_product-cons product x xs = ground arith

group_of-group_from :
    (product : String) (m : List (String × List Contact)) (xs : List Contact)
    → group_of product (group_from m xs) ≡ group_of product m ++ of_product product xs
unfolding group_from
group_of-group_from product m [] = sym (append-nil (group_of product m))
group_of-group_from product m (x ∷ xs) =
    group_of-group_from product (insert x.product (group_of x.product m ++ x ∷ []) m) xs
    ∙ ap (λ ys. ys ++ of_product product xs) (group_of-insert x product m)
    ∙ append_assoc (group_of product m) (of_product product (x ∷ [])) (of_product product xs)
    ∙ ap (λ ys. group_of product m ++ ys) (of_product-cons product x xs)

-- The group of a product has the contacts of that product, in their order, and no others.
pub group_of-grouped :
    (product : String) (xs : List Contact) → group_of product (grouped xs) ≡ of_product product xs
unfolding grouped lookup
group_of-grouped product xs = group_of-group_from product [] xs

-- ===== src/Prelude/Occurs.antt =====
-- Where an element stands in a list.
use release_radar.Prelude.{
  ℕ, zero, suc, ◌≡◌, ◌↔◌, ◌⊎◌, sym, ap, ◌∙◌, inl, inr, Bool, true, some, List, [], ◌∷◌, ◌++◌,
  filter, get_elem?, Bool-cases,
}

pub some_inj : {A : Type 0} {x y : A} → some x ≡ some y → x ≡ y
some_inj e = cc

module _ {A : Type 0} where
  -- The element stands somewhere in the list.
  abbrev pub Occurs : A → List A → Type 0
  Occurs x xs = (k : ℕ) × (get_elem? xs k ≡ some x)

  pub Occurs-head : (x y : A) (ys : List A) → y ≡ x → Occurs x (y ∷ ys)
  Occurs-head x y ys e = (zero, ap some e)

  pub Occurs-tail : (x y : A) (ys : List A) → Occurs x ys → Occurs x (y ∷ ys)
  Occurs-tail x y ys (k, e) = (suc k, e)

  pub Occurs-uncons : (x y : A) (ys : List A) → Occurs x (y ∷ ys) → (y ≡ x) ⊎ Occurs x ys
  Occurs-uncons x y ys (zero, e) = inl (some_inj e)
  Occurs-uncons x y ys (suc k, e) = inr (k, e)

  pub Occurs-nil : (x : A) → ¬ Occurs x []
  Occurs-nil x (k, e) = cc

  pub Occurs-append_left : (x : A) (xs ys : List A) → Occurs x xs → Occurs x (xs ++ ys)
  Occurs-append_left x [] ys h = absurd (Occurs-nil x h)
  Occurs-append_left x (y ∷ xs) ys (zero, e) = (zero, e)
  Occurs-append_left x (y ∷ xs) ys (suc k, e) =
      Occurs-tail x y (xs ++ ys) (Occurs-append_left x xs ys (k, e))

  pub Occurs-append_right : (x : A) (xs ys : List A) → Occurs x ys → Occurs x (xs ++ ys)
  Occurs-append_right x [] ys h = h
  Occurs-append_right x (y ∷ xs) ys h = Occurs-tail x y (xs ++ ys) (Occurs-append_right x xs ys h)

  pub Occurs-unappend : (x : A) (xs ys : List A) → Occurs x (xs ++ ys) → Occurs x xs ⊎ Occurs x ys
  Occurs-unappend x [] ys h = inr h
  Occurs-unappend x (y ∷ xs) ys (zero, e) = inl (zero, e)
  Occurs-unappend x (y ∷ xs) ys (suc k, e) = elim (Occurs-unappend x xs ys (k, e)) [
    | inl h ↦ inl (Occurs-tail x y xs h)
    | inr h ↦ inr h
  ]

  pub Occurs-filter_iff :
      (p : A → Bool) (x : A) (xs : List A) → Occurs x (filter p xs) ↔ (Occurs x xs × (p x ≡ true))
  Occurs-filter_iff p x [] = (λ h. absurd (Occurs-nil x h), λ h. absurd (Occurs-nil x h.0))
  Occurs-filter_iff p x (y ∷ ys) =
      let (to, from) = Occurs-filter_iff p x ys in
      elim (Bool-cases (p y)) [
        | inl on ↦ rw on (
          λ h. elim (Occurs-uncons x y (filter p ys) h) [
            | inl e ↦ (Occurs-head x y ys e, ap p (sym e) ∙ on)
            | inr t ↦ let (o, q) = to t in (Occurs-tail x y ys o, q)
          ],
          λ (h, q). elim (Occurs-uncons x y ys h) [
            | inl e ↦ Occurs-head x y (filter p ys) e
            | inr t ↦ Occurs-tail x y (filter p ys) (from (t, q))
          ],
        )
        | inr off ↦ rw off (
          λ h. let (o, q) = to h in (Occurs-tail x y ys o, q),
          λ (h, q). elim (Occurs-uncons x y ys h) [
            | inl e ↦ let c : p y ≡ true = ap p e ∙ q in absurd (cc)
            | inr t ↦ from (t, q)
          ],
        )
      ]

-- ===== src/Shell/Focus/Cycle.antt =====
-- focus-trap.directive.ts: Tab and Shift+Tab inside the dialog.
use text.Mathlib.Text.{◌==◌ as str_eq}
use release_radar.Prelude.{
  ◌≡◌, refl, sym, subst, true, false, String, List, [], ◌∷◌, includes, eq_iff, Bool-cases, inl, inr,
  arith,
}
use release_radar.Shell.Focus.{last_of, on_tab, on_shift_tab, press, press_shift}

abbrev pub IsIn : List String → String → Type 0
IsIn f a = includes f a ≡ true

abbrev pub AreDistinct : List String → Type 0
AreDistinct [] = Unit
AreDistinct (x ∷ xs) = (includes xs x ≡ false) × AreDistinct xs

-- The browser goes through the elements in the order of the document, forwards and backwards.
abbrev pub InOrder : (String → String) → (String → String) → List String → Type 0
InOrder forward backward [] = Unit
InOrder forward backward (x ∷ []) = Unit
InOrder forward backward (x ∷ y ∷ ys) =
    (forward x ≡ y) × (backward y ≡ x) × InOrder forward backward (y ∷ ys)

pub data Key : Type 0 where
  tab shift_tab : Key

abbrev pub pressed : (String → String) → (String → String) → List String → Key → String → String
pressed forward backward f tab a = press forward f a
pressed forward backward f shift_tab a = press_shift backward f a

abbrev pub presses :
    (String → String) → (String → String) → List String → List Key → String → String
presses forward backward f [] a = a
presses forward backward f (k ∷ ks) a =
    presses forward backward f ks (pressed forward backward f k a)

IsIn-last : (x : String) (xs : List String) → IsIn (x ∷ xs) (last_of x xs)
IsIn-last x [] = ground (arith, eq_iff x x)
IsIn-last x (y ∷ ys) = ground (arith, IsIn-last y ys)

module _ (forward backward : String → String) where
  -- An element that is not the last has its successor after the first, and the browser goes back from there.
  forward_lem :
      (x : String) (xs : List String) (a : String)
      → InOrder forward backward (x ∷ xs)
      → IsIn (x ∷ xs) a
      → str_eq a (last_of x xs) ≡ false
      → IsIn xs (forward a) × (backward (forward a) ≡ a)
  forward_lem x [] a o h n = ground (arith, eq_iff a x, eq_iff x a)
  forward_lem x (y ∷ ys) a o h n = elim (Bool-cases (str_eq x a)) [
    | inl e ↦
        let p : x ≡ a = (eq_iff x a).0 e in
        subst (λ b. IsIn (y ∷ ys) (forward b) × (backward (forward b) ≡ b)) p
          (subst (λ z. IsIn (y ∷ ys) z × (backward z ≡ x)) (sym o.0)
            (ground (arith, eq_iff y y), o.1))
    | inr e ↦ let (later, back) = forward_lem y ys a o.2 (ground arith) n in (ground arith, back)
  ]

  backward_lem :
      (x : String) (xs : List String) (a : String)
      → InOrder forward backward (x ∷ xs)
      → IsIn xs a
      → IsIn (x ∷ xs) (backward a)
  backward_lem x [] a o h = cc
  backward_lem x (y ∷ ys) a o h = elim (Bool-cases (str_eq y a)) [
    | inl e ↦
        let p : y ≡ a = (eq_iff y a).0 e in
        subst (λ b. IsIn (x ∷ y ∷ ys) (backward b)) p
          (subst (IsIn (x ∷ y ∷ ys)) (sym o.1) (ground (arith, eq_iff x x)))
    | inr e ↦ let earlier = backward_lem y ys a o.2 (ground arith) in ground arith
  ]

  IsIn-cons : (x y : String) (xs : List String) → IsIn xs y → IsIn (x ∷ xs) y
  IsIn-cons x y xs h = ground arith

  press-IsIn :
      (f : List String) (k : Key) (a : String)
      → InOrder forward backward f
      → IsIn f a
      → IsIn f (pressed forward backward f k a)
  unfolding on_tab on_shift_tab
  press-IsIn [] k a o h = cc
  press-IsIn (x ∷ xs) tab a o h = elim (Bool-cases (str_eq a (last_of x xs))) [
    | inl e ↦ subst (IsIn (x ∷ xs)) (sym (wraps e)) (ground (arith, eq_iff x x))
    | inr e ↦
        subst (IsIn (x ∷ xs)) (sym (steps e))
          (IsIn-cons x (forward a) xs (forward_lem x xs a o h e).0)
  ]
    where
      wraps : str_eq a (last_of x xs) ≡ true → press forward (x ∷ xs) a ≡ x
      wraps e = rw e refl

      steps : str_eq a (last_of x xs) ≡ false → press forward (x ∷ xs) a ≡ forward a
      steps e = rw e refl
  press-IsIn (x ∷ xs) shift_tab a o h = elim (Bool-cases (str_eq a x)) [
    | inl e ↦ subst (IsIn (x ∷ xs)) (sym (wraps e)) (IsIn-last x xs)
    | inr e ↦
        subst (IsIn (x ∷ xs)) (sym (steps e))
          (backward_lem x xs a o (ground (arith, eq_iff a x, eq_iff x a)))
  ]
    where
      wraps : str_eq a x ≡ true → press_shift backward (x ∷ xs) a ≡ last_of x xs
      wraps e = rw e refl

      steps : str_eq a x ≡ false → press_shift backward (x ∷ xs) a ≡ backward a
      steps e = rw e refl

  -- Whatever Tab and Shift+Tab are pressed, the focus stays on the elements of the dialog, if it is on one
  -- of them and the browser goes through them in their order.
  pub presses-IsIn :
      (f : List String) (ks : List Key) (a : String)
      → InOrder forward backward f
      → IsIn f a
      → IsIn f (presses forward backward f ks a)
  presses-IsIn f [] a o h = h
  presses-IsIn f (k ∷ ks) a o h =
      presses-IsIn f ks (pressed forward backward f k a) o (press-IsIn f k a o h)

  -- Shift+Tab takes back Tab, also over the ends, if the elements are distinct, the focus is on one of them
  -- and the browser goes through them in their order.
  pub press_shift-press :
      (f : List String) (a : String)
      → AreDistinct f
      → InOrder forward backward f
      → IsIn f a
      → press_shift backward f (press forward f a) ≡ a
  unfolding on_tab on_shift_tab
  press_shift-press [] a d o h = cc
  press_shift-press (x ∷ xs) a d o h = elim (Bool-cases (str_eq a (last_of x xs))) [
    | inl e ↦ ground (arith, eq_iff x x, eq_iff a (last_of x xs))
    | inr e ↦
        let (later, back) = forward_lem x xs a o h e in
        let apart : str_eq (forward a) x ≡ false = after_first x xs (forward a) d.0 later in
        ground arith
  ]
    where
      after_first :
          (y : String) (ys : List String) (b : String)
          → includes ys y ≡ false
          → IsIn ys b
          → str_eq b y ≡ false
      after_first y ys b n i = elim (Bool-cases (str_eq b y)) [
        | inl same ↦ absurd (apart (subst (IsIn ys) ((eq_iff b y).0 same) i))
        | inr other ↦ other
      ]
        where
          apart : ¬ IsIn ys y
          apart p = cc

-- ===== src/Filter/Laws.antt =====
-- timeline.jsx: what the filter lets through, and what the popover's actions do to it.
use text.Mathlib.Text.{◌==◌ as str_eq}
use release_radar.Prelude.{
  ◌∙◌, inl, inr, Bool-cases, ◌≡◌, ◌↔◌, refl, ap, subst, Bool, true, false, not, ◌&&◌, ◌||◌, String,
  List, [], ◌∷◌, ◌++◌, map, any, includes, without, if◌then◌else◌, arith, eq_iff, eq_refl,
}
use release_radar.Filter.{
  Stage, Rollout, Criteria, is_set, filter_match, Key, products, types, statuses, actors, get, put,
  toggle_value, toggle, clear, active_count, filtered_rollouts,
}

-- A criterion that is set asks for one of its values among those of the rollout.
abbrev pub Meets : List String → List String → Type 0
Meets [] values = Unit
Meets (x ∷ xs) values = any (λ v. includes (x ∷ xs) v) values ≡ true

Meets-iff :
    (xs values : List String)
    → ((is_set xs && not (any (λ v. includes xs v) values)) ≡ false) ↔ Meets xs values
Meets-iff [] values = (λ _. tt, λ _. refl)
Meets-iff (x ∷ xs) values = not_false (any (λ v. includes (x ∷ xs) v) values)
  where
    not_false : (b : Bool) → (not b ≡ false) ↔ (b ≡ true)
    not_false true = (λ _. refl, λ _. refl)
    not_false false = (λ e. cc, λ e. cc)

Meets-one_iff :
    (xs : List String) (v : String)
    → ((is_set xs && not (includes xs v)) ≡ false) ↔ Meets xs (v ∷ [])
Meets-one_iff xs v = rw (← or_false (includes xs v)) (Meets-iff xs (v ∷ []))
  where
    or_false : (b : Bool) → (b || false) ≡ b
    or_false true = refl
    or_false false = refl

any-map {ℓ κ} :
    {A : Type ℓ} {B : Type κ} (p : B → Bool) (g : A → B) (xs : List A)
    → any p (map g xs) ≡ any (λ x. p (g x)) xs
any-map p g [] = refl
any-map p g (x ∷ xs) = ap (λ b. p (g x) || b) (any-map p g xs)

four_tests :
    (a b c d : Bool)
    → ((if a then false else if b then false else if c then false else not d) ≡ true)
      ↔ ((a ≡ false) × (b ≡ false) × (c ≡ false) × (d ≡ false))
four_tests a b c d = ground arith

Meets-statuses_iff :
    (xs : List String) (stages : List Stage)
    → ((is_set xs && not (any (λ s. includes xs s.status) stages)) ≡ false)
      ↔ Meets xs (map (λ s. s.status) stages)
Meets-statuses_iff xs stages =
    subst (λ b. ((is_set xs && not b) ≡ false) ↔ Meets xs (map (λ s. s.status) stages))
      (any-map (λ v. includes xs v) (λ (s : Stage). s.status) stages)
      (Meets-iff xs (map (λ s. s.status) stages))

-- A rollout is shown exactly when it meets every criterion that is set: its product, its type, one
-- of its pair and the status of one of its stages.
pub filter_match_iff :
    (r : Rollout) (f : Criteria)
    → (filter_match r f ≡ true) ↔ (
        Meets f.products (r.product ∷ [])
        × Meets f.types (r.type_id ∷ [])
        × Meets f.actors r.pair
        × Meets f.statuses (map (λ s. s.status) r.stages))
unfolding filter_match
filter_match_iff r f =
    let (to, from) = four_tests _ _ _ _ in
    let p = Meets-one_iff f.products r.product in
    let t = Meets-one_iff f.types r.type_id in
    let a = Meets-iff f.actors r.pair in
    let s = Meets-statuses_iff f.statuses r.stages in
    (
      λ h. let (hp, ht, ha, hs) = to h in (p.0 hp, t.0 ht, a.0 ha, s.0 hs),
      λ (mp, mt, ma, ms). from (p.1 mp, t.1 mt, a.1 ma, s.1 ms),
    )

includes-append :
    (xs ys : List String) (v : String) → includes (xs ++ ys) v ≡ (includes xs v || includes ys v)
includes-append [] ys v = refl
includes-append (x ∷ xs) ys v = ground (arith, includes-append xs ys v)

includes-without :
    (xs : List String) (v w : String)
    → includes (without xs v) w ≡ (includes xs w && not (str_eq v w))
includes-without [] v w = refl
includes-without (x ∷ xs) v w =
    ground (arith, includes-without xs v w, eq_iff x v, eq_iff x w, eq_iff v w)

-- Toggling a value turns it on or off, and leaves every other value as it was.
includes-toggle_value :
    (xs : List String) (v w : String)
    → includes (toggle_value xs v) w ≡ (if str_eq v w then not (includes xs w) else includes xs w)
unfolding toggle_value
includes-toggle_value xs v w = ground (
  arith,
  includes-without xs v w,
  includes-append xs (v ∷ []) w,
  eq_iff v w,
  ap (includes xs) {x = v} {y = w},
)

without_absent : (xs : List String) (v : String) → includes xs v ≡ false → without xs v ≡ xs
without_absent [] v h = refl
without_absent (x ∷ xs) v h = ground (arith, without_absent xs v)

without-append :
    (xs : List String) (v : String) → includes xs v ≡ false → without (xs ++ v ∷ []) v ≡ xs
without-append [] v h = rw (eq_refl v)
without-append (x ∷ xs) v h = ground (arith, without-append xs v)

-- Toggling a value on and off again gives back the list.
toggle_value_twice :
    (xs : List String) (v : String)
    → includes xs v ≡ false
    → toggle_value (toggle_value xs v) v ≡ xs
unfolding toggle_value
toggle_value_twice xs v h =
    ground (arith, includes-append xs (v ∷ []) v, eq_refl v, without-append xs v h)

abbrev pub is_same : Key → Key → Bool
is_same products products = true
is_same types types = true
is_same statuses statuses = true
is_same actors actors = true
is_same _ _ = false

get-put :
    (k : Key) (xs : List String) (f : Criteria) (j : Key)
    → get j (put k xs f) ≡ (if is_same k j then xs else get j f)
get-put products xs f products = refl
get-put products xs f types = refl
get-put products xs f statuses = refl
get-put products xs f actors = refl
get-put types xs f products = refl
get-put types xs f types = refl
get-put types xs f statuses = refl
get-put types xs f actors = refl
get-put statuses xs f products = refl
get-put statuses xs f types = refl
get-put statuses xs f statuses = refl
get-put statuses xs f actors = refl
get-put actors xs f products = refl
get-put actors xs f types = refl
get-put actors xs f statuses = refl
get-put actors xs f actors = refl

same_get : (k j : Key) (f : Criteria) → is_same k j ≡ true → get k f ≡ get j f
same_get products products f h = refl
same_get products types f h = cc
same_get products statuses f h = cc
same_get products actors f h = cc
same_get types products f h = cc
same_get types types f h = refl
same_get types statuses f h = cc
same_get types actors f h = cc
same_get statuses products f h = cc
same_get statuses types f h = cc
same_get statuses statuses f h = refl
same_get statuses actors f h = cc
same_get actors products f h = cc
same_get actors types f h = cc
same_get actors statuses f h = cc
same_get actors actors f h = refl

-- Toggling a value of a criterion turns that value of it on or off, and leaves the criterion's other
-- values and the other criteria as they were.
pub includes-toggle :
    (k j : Key) (v w : String) (f : Criteria)
    → includes (get j (toggle k v f)) w
      ≡ (if is_same k j && str_eq v w then not (includes (get j f) w) else includes (get j f) w)
unfolding toggle
includes-toggle k j v w f = elim (Bool-cases (is_same k j)) [
  | inl e ↦
      ap (λ xs. includes xs w) (get-put k (toggle_value (get k f) v) f j)
      ∙ rw (e, same_get k j f e) (includes-toggle_value (get j f) v w)
  | inr e ↦ ap (λ xs. includes xs w) (get-put k (toggle_value (get k f) v) f j) ∙ rw e refl
]

-- Toggling a value that is off twice gives back the filter.
pub toggle_twice :
    (k : Key) (v : String) (f : Criteria)
    → includes (get k f) v ≡ false
    → toggle k v (toggle k v f) ≡ f
unfolding toggle
toggle_twice products v f h =
    ap (λ xs. record f { products = xs }) (toggle_value_twice f.products v h)
toggle_twice types v f h = ap (λ xs. record f { types = xs }) (toggle_value_twice f.types v h)
toggle_twice statuses v f h =
    ap (λ xs. record f { statuses = xs }) (toggle_value_twice f.statuses v h)
toggle_twice actors v f h = ap (λ xs. record f { actors = xs }) (toggle_value_twice f.actors v h)

-- A cleared filter shows everything, and counts nothing.
pub filtered_rollouts-clear :
    (f : Criteria) (rs : List Rollout)
    → (filtered_rollouts (clear f) rs ≡ rs) × (active_count (clear f) ≡ 0)
unfolding filtered_rollouts clear active_count
filtered_rollouts-clear f [] = (refl, refl)
filtered_rollouts-clear f (r ∷ rs) = (ap (r ∷◌) (filtered_rollouts-clear f rs).0, refl)

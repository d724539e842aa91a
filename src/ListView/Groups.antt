-- ===== src/ListView/Groups.antt =====
-- list-view.component.ts: the groups of a day.
use mathlib.Core.List.{flatten, reverse_aux, reverse-append, reverse-reverse, append-nil}
use release_radar.Prelude.{
  ℕ, ◌≤◌, ◌<◌, ◌≡◌, ◌≢◌, refl, sym, ap, ◌∙◌, List, [], ◌∷◌, ◌++◌, arith, All, Bool-cases, map,
  reverse, append_assoc, ◌==◌, inl, inr,
}
use release_radar.ListView.{
  Row, Rollout, Group, date_key, push, opened, group_from, in_order, groups, Filters, filtered_rows,
  rows, is_shown,
}
use release_radar.ListView.Order.{IsSorted, rows-IsSorted, filter-IsSorted}

abbrev pub rows_of : List Group → List (List Row)
rows_of [] = []
rows_of (g ∷ gs) = g.rows ∷ rows_of gs

-- The rows of a stack of groups, the last one first.
abbrev unstack : List Group → List Row
unstack [] = []
unstack (g ∷ gs) = g.rows ++ unstack gs

unstack-push : (r : Row) (gs : List Group) → unstack (push r (opened r gs)) ≡ r ∷ unstack gs
unstack-push r [] = refl
unstack-push r (g ∷ gs) = elim (Bool-cases (g.key == date_key r.date)) [
  | inl same ↦ rw same refl
  | inr new ↦ rw new refl
]

unstack-group_from :
    (gs : List Group) (rs : List Row) → unstack (group_from gs rs) ≡ reverse_aux rs (unstack gs)
unfolding group_from
unstack-group_from gs [] = refl
unstack-group_from gs (r ∷ rs) =
    unstack-group_from (push r (opened r gs)) rs ∙ ap (reverse_aux rs) (unstack-push r gs)

flatten-in_order :
    (gs acc : List Group)
    → flatten (rows_of (reverse_aux (map in_order gs) acc))
      ≡ reverse (unstack gs) ++ flatten (rows_of acc)
unfolding flatten
flatten-in_order [] acc = refl
flatten-in_order (g ∷ gs) acc =
    flatten-in_order gs (in_order g ∷ acc)
    ∙ sym (append_assoc (reverse (unstack gs)) (reverse g.rows) (flatten (rows_of acc)))
    ∙ ap (◌++ flatten (rows_of acc)) (sym (reverse-append g.rows (unstack gs)))

-- One after another, the groups hold all the rows, in their order.
pub flatten-groups : (rs : List Row) → flatten (rows_of (groups rs)) ≡ rs
unfolding groups flatten
flatten-groups rs =
    flatten-in_order (group_from [] rs) []
    ∙ append-nil (reverse (unstack (group_from [] rs)))
    ∙ ap reverse (unstack-group_from [] rs)
    ∙ reverse-reverse rs

-- The rows of a group are of its day, and there is one.
abbrev pub IsOfDay : Group → Type 0
IsOfDay g = (g.rows ≢ []) × All (λ r. date_key r.date ≡ g.key) g.rows

-- What holds of the stack: its groups are of their days, and the days fall.
abbrev Falls : List Group → Type 0
Falls [] = Unit
Falls (g ∷ []) = Unit
Falls (g ∷ h ∷ gs) = (h.key < g.key) × Falls (h ∷ gs)

abbrev Until : ℕ → List Group → Type 0
Until k [] = Unit
Until k (g ∷ gs) = g.key ≤ k

opened-Falls :
    (r : Row) (gs : List Group)
    → Until (date_key r.date) gs
    → Falls gs
    → Falls (push r (opened r gs)) × Until (date_key r.date) (push r (opened r gs))
opened-Falls r [] u h = (tt, omega arith)
opened-Falls r (g ∷ []) u h = elim (Bool-cases (g.key == date_key r.date)) [
  | inl same ↦ rw same (tt, u)
  | inr new ↦ rw new ((ground arith, tt), omega arith)
]
opened-Falls r (g ∷ h ∷ gs) u k = elim (Bool-cases (g.key == date_key r.date)) [
  | inl same ↦ rw same (k, u)
  | inr new ↦ rw new ((ground arith, k), omega arith)
]

Until-trans : (j k : ℕ) (gs : List Group) → j ≤ k → Until j gs → Until k gs
Until-trans j k [] h u = tt
Until-trans j k (g ∷ gs) h u = omega arith

Until-next :
    (d : ℕ) (gs : List Group) (rs : List Row)
    → All (λ s. d ≤ s.date) rs
    → Until (date_key d) gs
    → All (λ s. Until (date_key s.date) gs) rs
Until-next d gs [] h u = tt
Until-next d gs (s ∷ rs) (h, hs) u =
    (Until-trans (date_key d) (date_key s.date) gs (omega arith) u, Until-next d gs rs hs u)

group_from-Falls :
    (gs : List Group) (rs : List Row)
    → IsSorted rs
    → All (λ s. Until (date_key s.date) gs) rs
    → Falls gs
    → Falls (group_from gs rs)
unfolding group_from
group_from-Falls gs [] h u k = k
group_from-Falls gs (r ∷ rs) (h, hs) (u, us) k =
    let (falls, until) = opened-Falls r gs u k in
    group_from-Falls (push r (opened r gs)) rs hs
      (Until-next r.date (push r (opened r gs)) rs h until) falls

abbrev pub Ascends : List Group → Type 0
Ascends [] = Unit
Ascends (g ∷ []) = Unit
Ascends (g ∷ h ∷ gs) = (g.key < h.key) × Ascends (h ∷ gs)

reverse_aux-Ascends :
    (g : Group) (gs acc : List Group)
    → Falls (g ∷ gs)
    → Ascends (in_order g ∷ acc)
    → Ascends (reverse_aux (map in_order gs) (in_order g ∷ acc))
reverse_aux-Ascends g [] acc f a = a
reverse_aux-Ascends g (h ∷ gs) acc (lt, f) a = reverse_aux-Ascends h gs (in_order g ∷ acc) f (lt, a)

reverse-Ascends : (gs : List Group) → Falls gs → Ascends (reverse (map in_order gs))
reverse-Ascends [] f = tt
reverse-Ascends (g ∷ gs) f = reverse_aux-Ascends g gs [] f tt

All-True : (rs : List Row) → All (λ s. Until (date_key s.date) []) rs
All-True [] = tt
All-True (r ∷ rs) = (tt, All-True rs)

-- Of what the filters leave of the rows, no two groups have the same day, and they are in the
-- order of their days.
pub groups-Ascends :
    (now : ℕ) (f : Filters) (rollouts : List Rollout)
    → Ascends (groups (filtered_rows now f (rows rollouts)))
unfolding groups filtered_rows
groups-Ascends now f rollouts =
    let shown = filtered_rows now f (rows rollouts) in
    reverse-Ascends (group_from [] shown) (
      group_from-Falls [] shown
        (filter-IsSorted (is_shown now f) (rows rollouts) (rows-IsSorted rollouts)) (All-True shown)
        tt)

push-IsOfDay : (r : Row) (gs : List Group) → All IsOfDay gs → All IsOfDay (push r (opened r gs))
push-IsOfDay r [] h = ((λ e. ground (arith, e), (refl, tt)), tt)
push-IsOfDay r (g ∷ gs) ((n, d), h) = elim (Bool-cases (g.key == date_key r.date)) [
  | inl same ↦ rw same ((λ e. ground (arith, e), (ground arith, d)), h)
  | inr new ↦ rw new ((λ e. ground (arith, e), (refl, tt)), ((n, d), h))
]

group_from-IsOfDay :
    (gs : List Group) (rs : List Row) → All IsOfDay gs → All IsOfDay (group_from gs rs)
unfolding group_from
group_from-IsOfDay gs [] h = h
group_from-IsOfDay gs (r ∷ rs) h =
    group_from-IsOfDay (push r (opened r gs)) rs (push-IsOfDay r gs h)

All-reverse_aux {ℓ} :
    {A : Type ℓ} (P : A → Type 0) (xs acc : List A)
    → All P xs
    → All P acc
    → All P (reverse_aux xs acc)
All-reverse_aux P [] acc h k = k
All-reverse_aux P (x ∷ xs) acc (h, hs) k = All-reverse_aux P xs (x ∷ acc) hs (h, k)

reverse_aux-ne_nil : (x : Row) (xs acc : List Row) → reverse_aux xs (x ∷ acc) ≢ []
reverse_aux-ne_nil x [] acc e = ground (arith, e)
reverse_aux-ne_nil x (y ∷ xs) acc e = reverse_aux-ne_nil y xs (x ∷ acc) e

reverse-ne_nil : (xs : List Row) → xs ≢ [] → reverse xs ≢ []
reverse-ne_nil [] n e = n e
reverse-ne_nil (x ∷ xs) n e = reverse_aux-ne_nil x xs [] e

All-in_order : (gs : List Group) → All IsOfDay gs → All IsOfDay (map in_order gs)
All-in_order [] h = tt
All-in_order (g ∷ gs) ((n, d), h) = (
  (reverse-ne_nil g.rows n, All-reverse_aux (λ r. date_key r.date ≡ g.key) g.rows [] d tt),
  All-in_order gs h,
)

-- Each group has a row, and all of its rows are of its day.
pub groups-IsOfDay : (rs : List Row) → All IsOfDay (groups rs)
unfolding groups
groups-IsOfDay rs =
    All-reverse_aux IsOfDay (map in_order (group_from [] rs)) []
      (All-in_order (group_from [] rs) (group_from-IsOfDay [] rs tt)) tt

-- Of what the filters leave of the rows: the groups hold all of it, in its order; each group has a row, and
-- all of its rows are of its day; no two groups have the same day, and they are in the order of their days.
pub groups_lem :
    (now : ℕ) (f : Filters) (rollouts : List Rollout)
    → (flatten (rows_of (groups (filtered_rows now f (rows rollouts))))
        ≡ filtered_rows now f (rows rollouts))
      × All IsOfDay (groups (filtered_rows now f (rows rollouts)))
      × Ascends (groups (filtered_rows now f (rows rollouts)))
groups_lem now f rollouts = (
  flatten-groups (filtered_rows now f (rows rollouts)),
  groups-IsOfDay (filtered_rows now f (rows rollouts)),
  groups-Ascends now f rollouts,
)

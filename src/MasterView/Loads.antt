-- ===== src/MasterView/Loads.antt =====
-- master-data-view.component.ts: the loads of the data, and the drafts.
use release_radar.Prelude.{◌≡◌, ◌∙◌, sym, refl, Option, none, some, List, [], ◌∷◌, ◌++◌}
use release_radar.Rollout.{Product, RolloutType}
use release_radar.MasterView.{View, Data, or_first, on_data}

abbrev pub loads : List Data → View → View
loads [] v = v
loads (d ∷ ds) v = loads ds (on_data d v)

abbrev pub all_products : List Data → List Product
all_products [] = []
all_products (d ∷ ds) = d.products ++ all_products ds

abbrev pub all_types : List Data → List RolloutType
all_types [] = []
all_types (d ∷ ds) = d.types ++ all_types ds

or_first-or_first {ℓ} :
    {A : Type ℓ} (o : Option A) (xs ys : List A)
    → or_first (or_first o xs) ys ≡ or_first o (xs ++ ys)
or_first-or_first (some d) xs ys = refl
or_first-or_first none [] ys = refl
or_first-or_first none (x ∷ xs) ys = refl

or_first-nil {ℓ} : {A : Type ℓ} (o : Option A) → or_first o [] ≡ o
or_first-nil none = refl
or_first-nil (some d) = refl

-- Loads leave a draft as it is; where there is none, it becomes the first item that any of them brings.
pub loads_lem :
    (ds : List Data) (v : View)
    → ((loads ds v).product_draft ≡ or_first v.product_draft (all_products ds))
      × ((loads ds v).type_draft ≡ or_first v.type_draft (all_types ds))
unfolding on_data
loads_lem [] v = (sym (or_first-nil v.product_draft), sym (or_first-nil v.type_draft))
loads_lem (d ∷ ds) v =
    let (p, t) = loads_lem ds (on_data d v) in
    (
      p ∙ or_first-or_first v.product_draft d.products (all_products ds),
      t ∙ or_first-or_first v.type_draft d.types (all_types ds),
    )

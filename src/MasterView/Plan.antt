-- ===== src/MasterView/Plan.antt =====
-- master-data-view.component.ts: the stages of a cascade plan that are still to be added.
use text.Mathlib.Text.{◌==◌ as str_eq}
use release_radar.Prelude.{
  ◌≡◌, ap, refl, not, ◌||◌, String, some, List, [], ◌∷◌, ◌++◌, map, filter, includes, without,
  eq_iff, arith,
}
use release_radar.Rollout.{RolloutType, CascadeStage}
use release_radar.MasterView.{View, add_stage, stage_keys, unused_stage_keys}

includes-append_one :
    (us : List String) (k x : String) → includes (us ++ k ∷ []) x ≡ (includes us x || str_eq k x)
includes-append_one [] k x = ground arith
includes-append_one (u ∷ us) k x = ground (arith, includes-append_one us k x)

unused_without :
    (us : List String) (k : String) (xs : List String)
    → filter (λ x. not (includes (us ++ k ∷ []) x)) xs
      ≡ without (filter (λ x. not (includes us x)) xs) k
unused_without us k [] = refl
unused_without us k (x ∷ xs) =
    ground (arith, includes-append_one us k x, eq_iff k x, eq_iff x k, unused_without us k xs)

keys_append :
    (plan : List CascadeStage) (p : CascadeStage)
    → map (λ q. q.stage) (plan ++ p ∷ []) ≡ map (λ q. q.stage) plan ++ p.stage ∷ []
keys_append [] p = refl
keys_append (q ∷ plan) p = ap (q.stage ∷◌) (keys_append plan p)

-- Adding a stage to the plan of a draft takes its key, and no other, from those that are offered.
pub unused_stage_keys-add_stage :
    (key : String) (v : View) {d : RolloutType}
    → v.type_draft ≡ some d
    → unused_stage_keys (add_stage key v) ≡ without (unused_stage_keys v) key
unfolding unused_stage_keys add_stage
unused_stage_keys-add_stage key v {d} e = rw e (
    rw (keys_append d.cascade_plan _)
      (unused_without (map (λ q. q.stage) d.cascade_plan) key stage_keys))

-- ===== src/MasterView/Sessions/Valid.antt =====
-- master-data-view.component.ts: every step of the page keeps its texts filled and its calls named.
use text.Mathlib.Text.{◌==◌ as str_eq}
use release_radar.Prelude.{
  ℕ, zero, suc, ◌≡◌, false, not, ◌||◌, String, Option, none, some, List, [], ◌∷◌, ◌++◌, erase_idx,
  without, All, Bool-cases, inl, inr, arith,
}
use release_radar.Prelude.Text.{trim, is_empty}
use release_radar.Rollout.{Product, RolloutType}
use release_radar.MasterView.{
  Dir, put_tasks, move_in, move_to, target, View, Call, upsert_product, upsert_rollout_type,
  patched, has_draft, or_first, patch_product, add_broker, save, save_product_of, patch_type,
  add_rule, add_task, save_type_of,
}
use release_radar.MasterView.Sessions.{
  or_same, Step, step, steps, AreTexts, HasTexts, IsClean, IsNamed, rules_of, brokers_of, IsValid,
}

append_one-AreTexts :
    (xs : List String) (x : String) → AreTexts xs → is_empty x ≡ false → AreTexts (xs ++ x ∷ [])
append_one-AreTexts [] x h e = (e, tt)
append_one-AreTexts (y ∷ ys) x h e = (h.0, append_one-AreTexts ys x h.1 e)

erase_idx-AreTexts : (xs : List String) (i : ℕ) → AreTexts xs → AreTexts (erase_idx xs i)
erase_idx-AreTexts [] i h = h
erase_idx-AreTexts (x ∷ xs) zero h = h.1
erase_idx-AreTexts (x ∷ xs) (suc i) h = (h.0, erase_idx-AreTexts xs i h.1)

without-AreTexts : (xs : List String) (y : String) → AreTexts xs → AreTexts (without xs y)
without-AreTexts [] y h = h
without-AreTexts (x ∷ xs) y h = elim (Bool-cases (str_eq x y)) [
  | inl e ↦ rw e (without-AreTexts xs y h.1)
  | inr e ↦ rw e (h.0, without-AreTexts xs y h.1)
]

-- A change that keeps the rules of a type keeps those of a draft, and likewise the brokers.
patched_rules :
    (f : RolloutType → RolloutType) (o : Option RolloutType)
    → ((t : RolloutType) → HasTexts t → HasTexts (f t))
    → AreTexts (rules_of o)
    → AreTexts (rules_of (patched f o))
patched_rules f none k h = h
patched_rules f (some t) k h = k t h

patched_brokers :
    (f : Product → Product) (o : Option Product)
    → ((p : Product) → AreTexts p.brokers → AreTexts (f p).brokers)
    → AreTexts (brokers_of o)
    → AreTexts (brokers_of (patched f o))
patched_brokers f none k h = h
patched_brokers f (some p) k h = k p h

or_first_rules :
    (o : Option RolloutType) (ts : List RolloutType)
    → AreTexts (rules_of o)
    → All HasTexts ts
    → AreTexts (rules_of (or_first o ts))
or_first_rules (some d) ts h k = h
or_first_rules none [] h k = h
or_first_rules none (t ∷ ts) h k = k.0

or_first_brokers :
    (o : Option Product) (ps : List Product)
    → AreTexts (brokers_of o)
    → All (λ p. AreTexts p.brokers) ps
    → AreTexts (brokers_of (or_first o ps))
or_first_brokers (some d) ps h k = h
or_first_brokers none [] h k = h
or_first_brokers none (p ∷ ps) h k = k.0

patch_type-IsValid :
    (f : RolloutType → RolloutType) (v : View)
    → ((t : RolloutType) → HasTexts t → HasTexts (f t))
    → IsValid v
    → IsValid (patch_type f v)
unfolding patch_type
patch_type-IsValid f v k h = record {
  named = h.named;
  rules = patched_rules f v.type_draft k h.rules;
  brokers = h.brokers;
}

put_tasks-IsValid :
    (o : Option (List String)) (v : View) → IsValid v → IsValid (or_same v (put_tasks v o))
unfolding put_tasks
put_tasks-IsValid none v h = h
put_tasks-IsValid (some tasks) v h = patch_type-IsValid _ v (λ t q. q) h

move_in-IsValid :
    (i : ℕ) (dir : Dir) (o : Option RolloutType) (v : View)
    → IsValid v
    → IsValid (or_same v (move_in i dir o v))
unfolding move_in
move_in-IsValid i dir none v h = h
move_in-IsValid i dir (some d) v h = put_tasks-IsValid (move_to i (target i dir) d.tasks) v h

patch_product-IsValid :
    (f : Product → Product) (v : View)
    → ((p : Product) → AreTexts p.brokers → AreTexts (f p).brokers)
    → IsValid v
    → IsValid (patch_product f v)
unfolding patch_product
patch_product-IsValid f v k h = record {
  named = h.named;
  rules = h.rules;
  brokers = patched_brokers f v.product_draft k h.brokers;
}

save-IsValid :
    (c : Call) (name : String) (v : View)
    → (is_empty (trim name) ≡ false → IsNamed c)
    → IsValid v
    → IsValid (save c name v)
save-IsValid c name v k h = elim (Bool-cases (is_empty (trim name))) [
  | inl e ↦ rw e h
  | inr e ↦ rw e (record { named = (k e, h.named); rules = h.rules; brokers = h.brokers })
]

save_product_of-IsValid :
    (o : Option Product) (v : View) → IsValid v → IsValid (save_product_of o v)
save_product_of-IsValid none v h = h
save_product_of-IsValid (some d) v h = save-IsValid (upsert_product d) d.name v (λ e. e) h

save_type_of-IsValid : (o : Option RolloutType) (v : View) → IsValid v → IsValid (save_type_of o v)
save_type_of-IsValid none v h = h
save_type_of-IsValid (some d) v h = save-IsValid (upsert_rollout_type d) d.name v (λ e. e) h

-- Where the trimmed text is blank, or there is no draft, nothing is added.
add_broker-IsValid : (v : View) → IsValid v → IsValid (add_broker v)
unfolding add_broker
add_broker-IsValid v h =
    elim (Bool-cases (is_empty (trim v.broker_draft) || not (has_draft v.product_draft))) [
      | inl e ↦ rw e h
      | inr e ↦ rw e (record {
        named = h.named;
        rules = h.rules;
        brokers =
            patched_brokers _ v.product_draft
              (λ p k. append_one-AreTexts p.brokers (trim v.broker_draft) k (ground arith))
              h.brokers;
      })
    ]

add_rule-IsValid : (v : View) → IsValid v → IsValid (add_rule v)
unfolding add_rule
add_rule-IsValid v h =
    elim (Bool-cases (is_empty (trim v.rule_draft) || not (has_draft v.type_draft))) [
      | inl e ↦ rw e h
      | inr e ↦ rw e (record {
        named = h.named;
        rules =
            patched_rules _ v.type_draft
              (λ t k. append_one-AreTexts t.rules (trim v.rule_draft) k (ground arith)) h.rules;
        brokers = h.brokers;
      })
    ]

add_task-IsValid : (v : View) → IsValid v → IsValid (add_task v)
unfolding add_task
add_task-IsValid v h =
    elim (Bool-cases (is_empty (trim v.task_draft) || not (has_draft v.type_draft))) [
      | inl e ↦ rw e h
      | inr e ↦ rw e (record {
        named = h.named;
        rules = patched_rules _ v.type_draft (λ t k. k) h.rules;
        brokers = h.brokers;
      })
    ]

step-IsValid : (s : Step) (v : View) → IsClean s → IsValid v → IsValid (step s v)
unfolding step
step-IsValid (Step.opened t) v k h = record {
  named = h.named;
  rules = h.rules;
  brokers = h.brokers;
}
step-IsValid (Step.loaded d) v k h = record {
  named = h.named;
  rules = or_first_rules v.type_draft d.types h.rules k.1;
  brokers = or_first_brokers v.product_draft d.products h.brokers k.0;
}
step-IsValid (Step.selected_product p) v k h = record {
  named = h.named;
  rules = h.rules;
  brokers = k;
}
step-IsValid (Step.selected_type t) v k h = record {
  named = h.named;
  rules = k;
  brokers = h.brokers;
}
step-IsValid Step.started_product v k h = record { named = h.named; rules = h.rules; brokers = tt }
step-IsValid Step.started_type v k h = record { named = h.named; rules = tt; brokers = h.brokers }
step-IsValid (Step.named_product s) v k h = patch_product-IsValid _ v (λ p q. q) h
step-IsValid (Step.named_type s) v k h = patch_type-IsValid _ v (λ t q. q) h
step-IsValid (Step.owned s) v k h = patch_product-IsValid _ v (λ p q. q) h
step-IsValid (Step.shortened s) v k h = patch_type-IsValid _ v (λ t q. q) h
step-IsValid (Step.toned s) v k h = patch_type-IsValid _ v (λ t q. q) h
step-IsValid (Step.typed_broker s) v k h = record {
  named = h.named;
  rules = h.rules;
  brokers = h.brokers;
}
step-IsValid (Step.typed_rule s) v k h = record {
  named = h.named;
  rules = h.rules;
  brokers = h.brokers;
}
step-IsValid (Step.typed_task s) v k h = record {
  named = h.named;
  rules = h.rules;
  brokers = h.brokers;
}
step-IsValid Step.added_broker v k h = add_broker-IsValid v h
step-IsValid Step.added_rule v k h = add_rule-IsValid v h
step-IsValid Step.added_task v k h = add_task-IsValid v h
step-IsValid (Step.removed_broker s) v k h =
    patch_product-IsValid _ v (λ p q. without-AreTexts p.brokers s q) h
step-IsValid (Step.removed_rule i) v k h =
    patch_type-IsValid _ v (λ t q. erase_idx-AreTexts t.rules i q) h
step-IsValid (Step.removed_task i) v k h = patch_type-IsValid _ v (λ t q. q) h
step-IsValid (Step.removed_stage i) v k h = patch_type-IsValid _ v (λ t q. q) h
step-IsValid (Step.edited_task i s) v k h = patch_type-IsValid _ v (λ t q. q) h
step-IsValid (Step.moved_task i dir) v k h = move_in-IsValid i dir v.type_draft v h
step-IsValid (Step.added_stage s) v k h = patch_type-IsValid _ v (λ t q. q) h
step-IsValid (Step.staged i s) v k h = patch_type-IsValid _ v (λ t q. q) h
step-IsValid (Step.delayed i n) v k h = patch_type-IsValid _ v (λ t q. q) h
step-IsValid Step.saved_product v k h = save_product_of-IsValid v.product_draft v h
step-IsValid Step.saved_type v k h = save_type_of-IsValid v.type_draft v h
step-IsValid (Step.product_answered p) v k h = record {
  named = h.named;
  rules = h.rules;
  brokers = k;
}
step-IsValid (Step.type_answered t) v k h = record {
  named = h.named;
  rules = k;
  brokers = h.brokers;
}
step-IsValid (Step.failed s) v k h = record {
  named = h.named;
  rules = h.rules;
  brokers = h.brokers;
}

-- Over every session of the page in which the loads, the lists and the answers bring no empty text, each
-- call is for an item whose name is not blank, and no rule or broker of a draft is an empty text.
pub steps-IsValid : (ss : List Step) (v : View) → All IsClean ss → IsValid v → IsValid (steps ss v)
steps-IsValid [] v k h = h
steps-IsValid (s ∷ ss) v k h = steps-IsValid ss (step s v) k.1 (step-IsValid s v k.0 h)

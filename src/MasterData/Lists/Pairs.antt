-- ===== src/MasterData/Lists/Pairs.antt =====
-- master-data.jsx and panels.jsx: a pair has at most two members, and a cascade plan grows upwards.
use text.Mathlib.Text.{◌==◌ as str_eq}
use release_radar.Prelude.{
  ℕ, ◌+◌, ◌≤◌, ◌≡◌, refl, true, false, not, String, List, [], ◌∷◌, ◌++◌, arith, length, includes,
  without, ltb, eq_refl, length-filter, length-append, Bool-cases, inl, inr,
}
use release_radar.Rollout.{CascadeStage}
use release_radar.MasterData.Lists.{toggle_pair, shifted, last_delay, add_stage}

includes_last : (xs : List String) (x : String) → includes (xs ++ x ∷ []) x ≡ true
includes_last [] x = ground (arith, eq_refl x)
includes_last (y ∷ xs) x = ground (arith, includes_last xs x)

includes-shifted : (xs : List String) (x : String) → includes (shifted xs x) x ≡ true
includes-shifted [] x = ground (arith, eq_refl x)
includes-shifted (a ∷ []) x = ground (arith, eq_refl x)
includes-shifted (a ∷ b ∷ xs) x = ground (arith, eq_refl x)

length-shifted : (xs : List String) (x : String) → length (shifted xs x) ≤ 2
length-shifted [] x = omega arith
length-shifted (a ∷ []) x = omega arith
length-shifted (a ∷ b ∷ xs) x = omega arith

includes-without_self : (xs : List String) (x : String) → includes (without xs x) x ≡ false
includes-without_self [] x = refl
includes-without_self (y ∷ xs) x = ground (arith, includes-without_self xs x)

-- A click on a person takes them out of the pair or puts them in, and a pair of two at most stays one.
pub toggle_pair_lem :
    (pair : List String) (id : String)
    → length pair ≤ 2
    → (includes (toggle_pair pair id) id ≡ not (includes pair id))
      × (length (toggle_pair pair id) ≤ 2)
unfolding toggle_pair
toggle_pair_lem pair id h = elim (Bool-cases (includes pair id)) [
  | inl e ↦
      rw e
        (includes-without_self pair id, omega (arith, length-filter (λ x. not (str_eq x id)) pair))
  | inr e ↦ elim (Bool-cases (ltb (length pair) 2)) [
    | inl small ↦
        rw (e, small) (includes_last pair id, ground (arith, length-append pair (id ∷ [])))
    | inr full ↦ rw (e, full) (includes-shifted pair id, length-shifted pair id)
  ]
]

-- No delay is below the one before it.
abbrev pub Ascends : ℕ → List CascadeStage → Type 0
Ascends d [] = Unit
Ascends d (p ∷ plan) = (d ≤ p.delay_hours) × Ascends p.delay_hours plan

Ascends-append :
    (d e : ℕ) (plan : List CascadeStage) (key : String)
    → d ≤ e
    → Ascends d plan
    → Ascends d (plan ++ record { stage = key; delay_hours = last_delay plan e } ∷ [])
Ascends-append d e [] key h a = (h, tt)
Ascends-append d e (p ∷ plan) key h (a, as_) =
    (a, Ascends-append p.delay_hours (p.delay_hours + 168) plan key (omega arith) as_)

-- A stage added to a plan whose delays do not fall comes after the others.
pub add_stage-Ascends :
    (plan : List CascadeStage) (key : String) → Ascends 0 plan → Ascends 0 (add_stage plan key)
unfolding add_stage
add_stage-Ascends plan key h = Ascends-append 0 0 plan key (omega arith) h

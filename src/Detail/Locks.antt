-- ===== src/Detail/Locks.antt =====
-- rollout-detail.component.ts: which locks block a rollout.
use release_radar.Prelude.{
  ℕ, ◌≤◌, ◌<◌, ◌≡◌, ◌↔◌, ◌⊎◌, inl, inr, max, Bool, true, ◌||◌, List, [], ◌∷◌, arith, All, any,
  includes, Bool-cases,
}
use release_radar.Rollout.{Rollout, RolloutStage, Lock}
use release_radar.Detail.{stage_end, overlaps, blocks}

-- There is a moment in the stage's window that the lock covers too.
abbrev pub Meets : Lock → RolloutStage → Type 0
Meets l st = (t : ℕ) × (st.start_at ≤ t) × (t < stage_end st) × (l.start_at ≤ t) × (t < l.end_at)

-- A stage that takes some time.
abbrev pub Runs : RolloutStage → Type 0
Runs st = st.start_at < stage_end st

overlaps_iff :
    (l : Lock) (st : RolloutStage)
    → l.start_at < l.end_at
    → Runs st
    → (overlaps l st ≡ true) ↔ Meets l st
unfolding overlaps
overlaps_iff l st h k = (
  λ e.
      let a : st.start_at < l.end_at = ground arith in
      let b : l.start_at < stage_end st = ground arith in
      (max st.start_at l.start_at, omega arith, omega arith, omega arith, omega arith),
  λ (t, h₁, h₂, h₃, h₄).
      let a : st.start_at < l.end_at = omega arith in
      let b : l.start_at < stage_end st = omega arith in ground arith,
)

abbrev pub Some : (RolloutStage → Type 0) → List RolloutStage → Type 0
Some P [] = ⊥
Some P (st ∷ sts) = P st ⊎ Some P sts

either : (a b : Bool) (P Q : Type 0) → (P → a ≡ true) → (Q → b ≡ true) → P ⊎ Q → (a || b) ≡ true
either a b P Q f g (inl p) = let e = f p in ground arith
either a b P Q f g (inr q) = let e = g q in ground arith

any-overlaps_iff :
    (l : Lock) (sts : List RolloutStage)
    → l.start_at < l.end_at
    → All Runs sts
    → (any (overlaps l) sts ≡ true) ↔ Some (Meets l) sts
any-overlaps_iff l [] h k = (λ e. ground (arith, e), λ e. absurd e)
any-overlaps_iff l (st ∷ sts) h (k, ks) =
    let (to, from) = overlaps_iff l st h k in
    let (tos, froms) = any-overlaps_iff l sts h ks in
    (
      λ e. elim (Bool-cases (overlaps l st)) as (λ _. Meets l st ⊎ Some (Meets l) sts) [
        | inl e₁ ↦ inl (to e₁)
        | inr e₁ ↦ inr (tos (ground arith))
      ],
      either (overlaps l st) (any (overlaps l) sts) _ _ from froms,
    )

-- A lock of a rollout's product, or of all of them.
abbrev pub Covers : Lock → Rollout → Type 0
Covers l r = (includes l.products "all" || includes l.products r.product) ≡ true

-- A lock that ends after it starts blocks a rollout whose stages take some time exactly when it
-- covers the rollout's product and some moment lies in its window and in that of a stage.
pub blocks_iff :
    (r : Rollout) (l : Lock)
    → l.start_at < l.end_at
    → All Runs r.stages
    → (blocks r l ≡ true) ↔ (Covers l r × Some (Meets l) r.stages)
unfolding blocks
blocks_iff r l h k =
    let (to, from) = any-overlaps_iff l r.stages h k in
    (
      λ e.
          let covers : Covers l r = ground arith in
          let meets : any (overlaps l) r.stages ≡ true = ground arith in (covers, to meets),
      λ (covers, meets). let yes = from meets in rw covers yes,
    )

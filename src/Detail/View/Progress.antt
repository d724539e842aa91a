-- ===== src/Detail/View/Progress.antt =====
-- The percentage of the tasks that are done.
use native.Mathlib.Nat.{le-div_iff_mul-le, div-lt_iff_lt-mul}
use release_radar.Prelude.{
  ℕ, suc, ◌+◌, ◌*◌, ◌/◌, ◌<◌, ◌≤◌, ◌≡◌, ◌↔◌, refl, true, List, [], ◌∷◌, length, filter, All, arith,
}
use release_radar.Rollout.{RolloutTask}
use release_radar.Detail.{completion, percent, is_done}

div-eq_iff : (q x k : ℕ) → 0 < k → (x / k ≡ q) ↔ ((q * k ≤ x) × (x < suc q * k))
div-eq_iff q x k h =
    let (a, b) = le-div_iff_mul-le {k = k} {x = q} {y = x} h in
    let (c, d) = div-lt_iff_lt-mul {k = k} {x = x} {y = suc q} h in
    (λ e. (a (omega arith), c (omega arith)), λ (f, g). let u = b f in let v = d g in omega arith)

-- Of fewer than 200 tasks, the part that is done is rounded to all of them only if it is all of them.
percent-eq-100_iff : (n m : ℕ) → n ≤ suc m → suc m < 200 → (percent n (suc m) ≡ 100) ↔ (n ≡ suc m)
percent-eq-100_iff n m h k =
    let (to, from) = div-eq_iff 100 (200 * n + suc m) (2 * suc m) (omega arith) in
    (λ e. let (a, b) = to e in omega arith, λ e. from (omega arith, omega arith))

abbrev pub IsDone : RolloutTask → Type 0
IsDone t = is_done t ≡ true

filter_le : (ts : List RolloutTask) → length (filter is_done ts) ≤ length ts
filter_le [] = omega arith
filter_le (t ∷ ts) = let h = filter_le ts in ground arith

filter-all_iff : (ts : List RolloutTask) → (length (filter is_done ts) ≡ length ts) ↔ All IsDone ts
filter-all_iff [] = (λ _. tt, λ _. refl)
filter-all_iff (t ∷ ts) = let h = filter_le ts in let (to, from) = filter-all_iff ts in ground arith

-- With at least one task and fewer than 200, the page says 100 % exactly when every task is done.
pub completion-eq-100_iff :
    (t : RolloutTask) (ts : List RolloutTask)
    → length (t ∷ ts) < 200
    → (completion (t ∷ ts) ≡ 100) ↔ All IsDone (t ∷ ts)
unfolding completion
completion-eq-100_iff t ts h =
    let (a, b) =
      percent-eq-100_iff (length (filter is_done (t ∷ ts))) (length ts) (filter_le (t ∷ ts)) h in
    let (c, d) = filter-all_iff (t ∷ ts) in (λ e. c (a e), λ e. b (d e))

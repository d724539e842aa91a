-- ===== src/Detail/Tasks.antt =====
-- rollout-detail.component.ts: moving the tasks of a draft.
use mathlib.Core.List.{Perm}
use mathlib.Core.List.Perm
use release_radar.Prelude.{
  ℕ, zero, suc, ◌≡◌, refl, ap, subst, ◌∙◌, Option, none, some, List, [], ◌∷◌, arith, get_elem?,
  length, ◌<◌,
}
use release_radar.Rollout.{RolloutTask}
use release_radar.Detail.Actions.{Dir, up, down, target, exchange, move_to, move_task}

-- Two neighbours change places.
abbrev pub swap_at : ℕ → List RolloutTask → List RolloutTask
swap_at i [] = []
swap_at zero (a ∷ []) = a ∷ []
swap_at zero (a ∷ b ∷ tasks) = b ∷ a ∷ tasks
swap_at (suc i) (a ∷ tasks) = a ∷ swap_at i tasks

swap_at_twice : (i : ℕ) (tasks : List RolloutTask) → swap_at i (swap_at i tasks) ≡ tasks
swap_at_twice i [] = refl
swap_at_twice zero (a ∷ []) = refl
swap_at_twice zero (a ∷ b ∷ tasks) = refl
swap_at_twice (suc i) (a ∷ tasks) = ap (a ∷◌) (swap_at_twice i tasks)

swap_at_perm : (i : ℕ) (tasks : List RolloutTask) → Perm (swap_at i tasks) tasks
swap_at_perm i [] = Perm.refl []
swap_at_perm zero (a ∷ []) = Perm.refl (a ∷ [])
swap_at_perm zero (a ∷ b ∷ tasks) = Perm.swap a b tasks
swap_at_perm (suc i) (a ∷ tasks) = Perm.cons a (swap_at_perm i tasks)

abbrev cons_moved : RolloutTask → Option (List RolloutTask) → Option (List RolloutTask)
cons_moved a none = none
cons_moved a (some tasks) = some (a ∷ tasks)

exchange-cons :
    (i j : ℕ) (a : RolloutTask) (o p : Option RolloutTask) (tasks : List RolloutTask)
    → exchange (suc i) (suc j) o p (a ∷ tasks) ≡ cons_moved a (exchange i j o p tasks)
exchange-cons i j a none p tasks = refl
exchange-cons i j a (some x) none tasks = refl
exchange-cons i j a (some x) (some y) tasks = refl

move_to-cons :
    (i j : ℕ) (a : RolloutTask) (tasks : List RolloutTask)
    → move_to (suc i) (some (suc j)) (a ∷ tasks) ≡ cons_moved a (move_to i (some j) tasks)
move_to-cons i j a tasks =
    ground (arith, exchange-cons i j a (get_elem? tasks i) (get_elem? tasks j) tasks)

down_swap :
    (i : ℕ) (tasks : List RolloutTask)
    → suc i < length tasks
    → move_to i (some (suc i)) tasks ≡ some (swap_at i tasks)
down_swap i [] h = absurd (omega arith)
down_swap zero (a ∷ []) h = absurd (omega arith)
down_swap zero (a ∷ b ∷ tasks) h = ground arith
down_swap (suc i) (a ∷ tasks) h =
    move_to-cons i (suc i) a tasks ∙ ap (cons_moved a) (down_swap i tasks (omega arith))

up_swap :
    (i : ℕ) (tasks : List RolloutTask)
    → suc i < length tasks
    → move_to (suc i) (some i) tasks ≡ some (swap_at i tasks)
up_swap i [] h = absurd (omega arith)
up_swap zero (a ∷ []) h = absurd (omega arith)
up_swap zero (a ∷ b ∷ tasks) h = ground arith
up_swap (suc i) (a ∷ tasks) h =
    move_to-cons (suc i) i a tasks ∙ ap (cons_moved a) (up_swap i tasks (omega arith))

length-swap_at : (i : ℕ) (tasks : List RolloutTask) → length (swap_at i tasks) ≡ length tasks
length-swap_at i [] = refl
length-swap_at zero (a ∷ []) = refl
length-swap_at zero (a ∷ b ∷ tasks) = refl
length-swap_at (suc i) (a ∷ tasks) = ap suc (length-swap_at i tasks)

abbrev pub opposite : Dir → Dir
opposite up = down
opposite down = up

-- The move gives the tasks in another order, which the move back from the new place undoes.
abbrev pub IsUndone : ℕ → ℕ → Dir → List RolloutTask → Type 0
IsUndone i j dir tasks =
    (moved : List RolloutTask) × (move_task i dir tasks ≡ some moved)
    × Perm moved tasks
    × (move_task j (opposite dir) moved ≡ some tasks)

IsUndone-up :
    (i : ℕ) (tasks : List RolloutTask) → suc i < length tasks → IsUndone (suc i) i up tasks
unfolding move_task
IsUndone-up i tasks h = (
  swap_at i tasks,
  up_swap i tasks h,
  swap_at_perm i tasks,
  down_swap i (swap_at i tasks) (omega (arith, length-swap_at i tasks))
      ∙ ap some (swap_at_twice i tasks),
)

IsUndone-down :
    (i : ℕ) (tasks : List RolloutTask) → suc i < length tasks → IsUndone i (suc i) down tasks
unfolding move_task
IsUndone-down i tasks h = (
  swap_at i tasks,
  down_swap i tasks h,
  swap_at_perm i tasks,
  up_swap i (swap_at i tasks) (omega (arith, length-swap_at i tasks))
      ∙ ap some (swap_at_twice i tasks),
)

-- Moving a task to a place where there is one too keeps all the tasks, and moving it back from there
-- gives back their order.
pub move_task_lem :
    (i j : ℕ) (dir : Dir) (tasks : List RolloutTask)
    → i < length tasks
    → j < length tasks
    → target i dir ≡ some j
    → IsUndone i j dir tasks
move_task_lem zero j up tasks h k e = ground (arith, e)
move_task_lem (suc i) j up tasks h k e =
    let same : i ≡ j = ground (arith, e) in
    subst (λ n. IsUndone (suc i) n up tasks) same (IsUndone-up i tasks h)
move_task_lem i j down tasks h k e =
    let same : suc i ≡ j = ground (arith, e) in
    subst (λ n. IsUndone i n down tasks) same (IsUndone-down i tasks (omega arith))

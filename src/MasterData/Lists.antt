-- ===== src/MasterData/Lists.antt =====
-- master-data.jsx: the lists within an item: the tasks and rules of a rollout type, the stages of its
-- cascade plan, the brokers and the pair of a product, and the pair of CreateRolloutModal in panels.jsx.
pub mod Pairs
use release_radar.Prelude.{
  ℕ, zero, suc, ◌+◌, Bool, true, false, not, String, Option, none, some, List, [], ◌∷◌, ◌++◌,
  filter, length, get_elem?, set, erase_idx, ltb, includes, without, if◌then◌else◌,
}
use release_radar.Prelude.Text.{trim, is_empty}
use release_radar.Rollout.{CascadeStage}

-- The list and the draft of `addTask`, `addRule` and `addBroker`.
unfoldable pub add_text : List String → String → List String × String
add_text xs draft = let v = trim draft in if is_empty v then (xs, draft) else (xs ++ v ∷ [], "")

unfoldable pub remove_at : List String → ℕ → List String
remove_at xs i = erase_idx xs i

-- `editTask`: the index is that of a task shown.
unfoldable pub edit_at : List String → ℕ → String → List String
edit_at xs i v = set xs i v

unfoldable pub remove_broker : List String → String → List String
remove_broker brokers b = without brokers b

unfoldable pub toggle_in : List String → String → List String
toggle_in xs id = if includes xs id then without xs id else xs ++ id ∷ []

-- `[pair[1], id]`, for a pair that is full.
abbrev pub shifted : List String → String → List String
shifted [] id = id ∷ []
shifted (a ∷ []) id = id ∷ []
shifted (a ∷ b ∷ rest) id = b ∷ id ∷ []

unfoldable pub toggle_pair : List String → String → List String
toggle_pair pair id =
    if includes pair id
    then without pair id
    else if ltb (length pair) 2
    then pair ++ id ∷ []
    else shifted pair id

-- The cascade plan.
abbrev pub last_delay : List CascadeStage → ℕ → ℕ
last_delay [] d = d
last_delay (p ∷ plan) d = last_delay plan (p.delay_hours + 168)

unfoldable pub add_stage : List CascadeStage → String → List CascadeStage
add_stage plan key = plan ++ record { stage = key; delay_hours = last_delay plan 0 } ∷ []

unfoldable pub unused_stages : List CascadeStage → List String → List String
unused_stages plan keys = filter (λ k. not (includes (used plan) k)) keys
  where
    used : List CascadeStage → List String
    used [] = []
    used (p ∷ rest) = p.stage ∷ used rest

-- ===== src/MasterData/Stages/Order.antt =====
-- master-data.jsx: the `order` of a stage is its place.
use release_radar.Prelude.{
  ℕ, ◌+◌, ◌≡◌, refl, String, Option, none, some, List, [], ◌∷◌, ◌++◌, arith, length, ltb, get_elem?,
  Bool-cases, inl, inr,
}
use release_radar.Stage.{StageMeta}
use release_radar.MasterData.{Editor, add}
use release_radar.MasterData.Stages.{
  StageItem, init_stages, number_from, find_index, Dir, target, exchange, move_to, move_found, move,
  add_stage, remove_stage,
}

-- The stages' orders are k, k + 1, and so on.
abbrev pub IsNumbered : ℕ → List StageItem → Type 0
IsNumbered k [] = Unit
IsNumbered k (s ∷ stages) = (s.order ≡ k) × IsNumbered (k + 1) stages

number_from-IsNumbered : (k : ℕ) (stages : List StageItem) → IsNumbered k (number_from k stages)
number_from-IsNumbered k [] = tt
number_from-IsNumbered k (s ∷ stages) = (refl, number_from-IsNumbered (k + 1) stages)

init_stages-IsNumbered :
    (k : ℕ) (table : List (String × StageMeta)) → IsNumbered k (init_stages k table)
unfolding init_stages
init_stages-IsNumbered k [] = tt
init_stages-IsNumbered k ((key, s) ∷ rest) = (refl, init_stages-IsNumbered (k + 1) rest)

append-IsNumbered :
    (k : ℕ) (stages : List StageItem) (s : StageItem)
    → s.order ≡ k + length stages
    → IsNumbered k stages
    → IsNumbered k (stages ++ s ∷ [])
append-IsNumbered k [] s e h = (omega arith, tt)
append-IsNumbered k (t ∷ stages) s e (h, hs) =
    (h, append-IsNumbered (k + 1) stages s (omega arith) hs)

move_to-IsNumbered :
    (i : ℕ) (o : Option ℕ) (stages : List StageItem)
    → IsNumbered 0 stages
    → IsNumbered 0 (move_to i o stages)
move_to-IsNumbered i none stages h = h
move_to-IsNumbered i (some j) stages h = elim (Bool-cases (ltb j (length stages))) [
  | inl e ↦
      rw e
        (number_from-IsNumbered 0 (exchange i j (get_elem? stages i) (get_elem? stages j) stages))
  | inr e ↦ rw e h
]

move_found-IsNumbered :
    (o : Option ℕ) (dir : Dir) (stages : List StageItem)
    → IsNumbered 0 stages
    → IsNumbered 0 (move_found o dir stages)
move_found-IsNumbered none dir stages h = h
move_found-IsNumbered (some i) dir stages h = move_to-IsNumbered i (target i dir) stages h

pub data Edit : Type 0 where
  adds : String → Edit
  removes : String → Edit
  moves : String → Dir → Edit

abbrev pub edit : Edit → Editor StageItem → Editor StageItem
edit (adds id) e = add_stage id e
edit (removes id) e = remove_stage id e
edit (moves id dir) e = move id dir e

abbrev pub edits : List Edit → Editor StageItem → Editor StageItem
edits [] e = e
edits (x ∷ xs) e = edits xs (edit x e)

edit-IsNumbered :
    (x : Edit) (e : Editor StageItem) → IsNumbered 0 e.items → IsNumbered 0 (edit x e).items
unfolding add_stage remove_stage move add
edit-IsNumbered (adds id) e h = append-IsNumbered 0 e.items _ (omega arith) h
edit-IsNumbered (removes id) e h = number_from-IsNumbered 0 _
edit-IsNumbered (moves id dir) e h = move_found-IsNumbered (find_index id e.items) dir e.items h

-- However stages are added, removed and moved, the order of each is its place in the list, if it was
-- so before.
pub edits-IsNumbered :
    (xs : List Edit) (e : Editor StageItem) → IsNumbered 0 e.items → IsNumbered 0 (edits xs e).items
edits-IsNumbered [] e h = h
edits-IsNumbered (x ∷ xs) e h = edits-IsNumbered xs (edit x e) (edit-IsNumbered x e h)

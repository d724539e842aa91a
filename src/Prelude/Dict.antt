-- ===== src/Prelude/Dict.antt =====
-- JavaScript's `Map` from texts: an association list, in the order of the first insertions.
use Prim.Native.String.{String}
use mathlib.Core.Path.{◌≡◌, refl}
use mathlib.Core.Option.{Option, none, some}
use mathlib.Core.List.{List, [], ◌∷◌}
use native.Mathlib.Omega.{arith}
use text.Mathlib.Text.{◌==◌}
use text.Mathlib.TextEquality.{eq_iff}
use release_radar.Prelude.Tests.{if◌then◌else◌}

module _ {ℓ} {V : Type ℓ} where
  -- `map.get(key)`
  unfoldable pub lookup : String → List (String × V) → Option V
  lookup key [] = none
  lookup key (entry ∷ rest) = if entry.0 == key then some entry.1 else lookup key rest

  -- `map.set(key, value)`
  unfoldable pub insert : String → V → List (String × V) → List (String × V)
  insert key value [] = (key, value) ∷ []
  insert key value (entry ∷ rest) =
      let behind = insert key value rest in
      if entry.0 == key then (entry.0, value) ∷ rest else entry ∷ behind

  pub lookup-insert :
      (key probe : String) (value : V) (entries : List (String × V))
      → lookup probe (insert key value entries)
        ≡ (if key == probe then some value else lookup probe entries)
  unfolding lookup insert
  lookup-insert key probe value [] = refl
  lookup-insert key probe value (entry ∷ rest) = ground (
    arith,
    lookup-insert key probe value rest,
    eq_iff entry.0 key,
    eq_iff entry.0 probe,
    eq_iff key probe,
  )

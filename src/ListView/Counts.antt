-- ===== src/ListView/Counts.antt =====
-- list-view.component.ts: the counts on the status buttons.
use text.Mathlib.Text.{◌==◌ as str_eq}
use release_radar.Prelude.{
  ℕ, ◌+◌, ◌≡◌, ap, Bool, String, List, [], ◌∷◌, arith, length, filter, eq_iff, if◌then◌else◌,
}
use release_radar.Prelude.Dict.{lookup, lookup-insert}
use release_radar.ListView.{Row, count_of, add_one, count_rows, status_counts, count}

abbrev pub of_status : String → Row → Bool
of_status id r = str_eq r.stage.status id

-- One more, if the texts agree.
abbrev one_if : Bool → ℕ
one_if b = if b then 1 else 0

count_of-add_one :
    (id k : String) (m : List (String × ℕ))
    → count_of (lookup id (add_one k m)) ≡ count_of (lookup id m) + one_if (str_eq k id)
count_of-add_one id k m = ground (
  arith,
  lookup-insert k id (count_of (lookup k m) + 1) m,
  eq_iff k id,
  ap (λ j. lookup j m) {x = k} {y = id},
)

count_of-count_rows :
    (id : String) (rs : List Row) (m : List (String × ℕ))
    → count_of (lookup id (count_rows rs m))
      ≡ count_of (lookup id m)
        + length (filter (of_status id) rs)
        + (if str_eq "all" id then length rs else 0)
unfolding count_rows
count_of-count_rows id [] m = ground arith
count_of-count_rows id (r ∷ rs) m = ground (
  arith,
  count_of-count_rows id rs (add_one r.stage.status (add_one "all" m)),
  count_of-add_one id r.stage.status (add_one "all" m),
  count_of-add_one id "all" m,
)

-- The button of a status shows how many rows have it, and the one of "all" how many rows there
-- are (and how many have the status "all", which is none of the statuses).
pub count_lem :
    (rs : List Row) (id : String)
    → count rs id ≡ length (filter (of_status id) rs) + (if str_eq "all" id then length rs else 0)
unfolding count status_counts lookup
count_lem rs id = ground (arith, count_of-count_rows id rs (("all", 0) ∷ []))

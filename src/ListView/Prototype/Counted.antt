-- ===== src/ListView/Prototype/Counted.antt =====
-- list-view.jsx: the rows that a filter lists, and the counts.
use text.Mathlib.Text.{◌==◌ as str_eq}
use release_radar.Prelude.{
  ◌≡◌, refl, ap, String, List, [], ◌∷◌, true, false, Bool, not, length, filter, if◌then◌else◌,
}
use release_radar.ListView.{Filters, all}
use release_radar.ListView.Prototype.{
  MockRow, is_listed, listed_rows, first_filters, counts, count_status,
}

filter_same :
    (p q : MockRow → Bool)
    → ((r : MockRow) → p r ≡ q r)
    → (rows : List MockRow) → filter p rows ≡ filter q rows
filter_same p q h [] = refl
filter_same p q h (r ∷ rows) = let e = filter_same p q h rows in rw (h r, e) refl

abbrev pub by_status : String → Filters
by_status status = record { window = all; status = status; product = "all" }

if_true_lem : (b : Bool) → (if not b then false else true) ≡ b
if_true_lem true = refl
if_true_lem false = refl

is_listed-by_status :
    (status : String)
    → str_eq status "all" ≡ false
    → (r : MockRow) → is_listed (by_status status) r ≡ str_eq r.stage.status status
unfolding is_listed
is_listed-by_status status h r = rw h (if_true_lem (str_eq r.stage.status status))

-- The number beside a status is the number of the rows that the filter of the status lists; that of the
-- upcoming stages is the number of the rows that are listed at first.
pub counts_lem :
    (status : String) (rows : List MockRow)
    → str_eq status "all" ≡ false
    → (length (listed_rows (by_status status) rows) ≡ count_status status rows)
      × (length (listed_rows first_filters rows) ≡ (counts rows).upcoming_count)
unfolding listed_rows counts is_listed
counts_lem status rows h = (
  ap length (
      filter_same (is_listed (by_status status)) (λ r. str_eq r.stage.status status)
        (is_listed-by_status status h) rows),
  refl,
)

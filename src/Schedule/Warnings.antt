-- ===== src/Schedule/Warnings.antt =====
-- schedule-rules.ts: what the warnings say of a day.
use text.Mathlib.Text.{◌==◌ as str_eq}
use release_radar.Prelude.{
  ℕ, ◌≤◌, ◌≡◌, ◌≢◌, ◌↔◌, refl, ap, sym, subst, String, false, List, [], ◌∷◌, Option, none, some,
  ◌==◌, arith, All, append-eq-nil_iff, eq_iff, if◌then◌else◌,
}
use release_radar.Prelude.Dict.{lookup, insert, lookup-insert}
use release_radar.Calendar.{Day, day, IsDay, month_length, next, days_after, days_before, weekday}
use release_radar.Calendar.Days.{days_after-IsDay, days_before-IsDay}
use release_radar.Schedule.{
  key, easter_sunday, holiday_days, add_all, bern_holidays, warning, friday_text, holiday_text,
  eve_text, schedule_warnings,
}
use release_radar.Schedule.Easter.{easter_sunday_bounds, full_year_lem}
use release_radar.Schedule.Keys.{key_inj}

-- The day is none of the listed holidays.
abbrev pub IsNoneOf : List (Day × String) → Day → Type 0
IsNoneOf hs d = All (λ h. h.0 ≢ d) hs

abbrev AreDays : List (Day × String) → Type 0
AreDays hs = All (λ h. IsDay h.0 × (str_eq h.1 "" ≡ false)) hs

-- A map whose values are no empty texts.
abbrev AreNames : List (String × String) → Type 0
AreNames m = (k v : String) → lookup k m ≡ some v → str_eq v "" ≡ false

insert-AreNames :
    (k v : String) (m : List (String × String))
    → str_eq v "" ≡ false
    → AreNames m
    → AreNames (insert k v m)
insert-AreNames k v m h n j w e = ground (arith, lookup-insert k j v m, n j w)

add_all-AreNames :
    (hs : List (Day × String)) (m : List (String × String))
    → AreDays hs
    → AreNames m
    → AreNames (add_all hs m)
unfolding add_all
add_all-AreNames [] m h n = n
add_all-AreNames ((d, name) ∷ hs) m (h, hh) n =
    add_all-AreNames hs (insert (key d) name m) hh (insert-AreNames (key d) name m h.1 n)

lookup-insert-none :
    (k j v : String) (m : List (String × String))
    → (lookup j (insert k v m) ≡ none) ↔ ((k ≢ j) × (lookup j m ≡ none))
lookup-insert-none k j v m = ground (arith, lookup-insert k j v m, eq_iff k j)

key-ne_iff : (e d : Day) → IsDay e → IsDay d → (key e ≢ key d) ↔ (e ≢ d)
key-ne_iff e d h k = (λ n p. n (ap key p), λ n p. n (key_inj e d h k p))

lookup-add_all :
    (hs : List (Day × String)) (m : List (String × String)) (d : Day)
    → IsDay d
    → AreDays hs
    → (lookup (key d) (add_all hs m) ≡ none) ↔ ((lookup (key d) m ≡ none) × IsNoneOf hs d)
unfolding add_all
lookup-add_all [] m d v h = (λ p. (p, tt), λ p. p.0)
lookup-add_all ((e, name) ∷ hs) m d v (h, hh) =
    let ih = lookup-add_all hs (insert (key e) name m) d v hh in
    let one = lookup-insert-none (key e) (key d) name m in
    let ne = key-ne_iff e d h.0 v in
    (
      λ p. let (q, r) = ih.0 p in let (apart, old) = one.0 q in (old, (ne.0 apart, r)),
      λ (old, (apart, r)). ih.1 (one.1 (ne.1 apart, old), r),
    )

pub easter-IsDay : (y : ℕ) → IsDay (easter_sunday y)
unfolding month_length
easter-IsDay y = ground (arith, easter_sunday_bounds y)

holiday_days-AreDays : (y : ℕ) → AreDays (holiday_days y)
unfolding holiday_days month_length
holiday_days-AreDays y =
    let e = easter-IsDay y in
    (
      (ground arith, refl),
      (
        (ground arith, refl),
        (
          (days_before-IsDay 2 _ e, refl),
          (
            (days_after-IsDay 1 _ e, refl),
            (
              (days_after-IsDay 39 _ e, refl),
              (
                (days_after-IsDay 50 _ e, refl),
                ((ground arith, refl), ((ground arith, refl), ((ground arith, refl), tt))),
              ),
            ),
          ),
        ),
      ),
    )

pub lookup-bern_holidays :
    (y : ℕ) (d : Day)
    → IsDay d
    → (lookup (key d) (bern_holidays y) ≡ none) ↔ IsNoneOf (holiday_days y) d
unfolding bern_holidays lookup
lookup-bern_holidays y d h =
    let (to, from) = lookup-add_all (holiday_days y) [] d h (holiday_days-AreDays y) in
    (λ p. (to p).1, λ n. from (refl, n))

warning-eq-nil_iff :
    (text : String → String) (o : Option String)
    → ((v : String) → o ≡ some v → str_eq v "" ≡ false)
    → (warning text o ≡ []) ↔ (o ≡ none)
warning-eq-nil_iff text none n = (λ _. refl, λ _. refl)
warning-eq-nil_iff text (some v) n = ground (arith, n v refl)

bern_holidays-AreNames : (y : ℕ) → AreNames (bern_holidays y)
unfolding bern_holidays lookup
bern_holidays-AreNames y =
    add_all-AreNames (holiday_days y) [] (holiday_days-AreDays y) (λ k v e. cc)

-- A holiday of the year warns, and no other day does.
warning-holiday_iff :
    (text : String → String) (y : ℕ) (d : Day)
    → IsDay d
    → (warning text (lookup (key d) (bern_holidays y)) ≡ []) ↔ IsNoneOf (holiday_days y) d
warning-holiday_iff text y d h =
    let (to, from) =
      warning-eq-nil_iff text (lookup (key d) (bern_holidays y))
        (bern_holidays-AreNames y (key d)) in
    let (there, back) = lookup-bern_holidays y d h in (λ p. there (to p), λ n. from (back n))

friday-eq-nil_iff : (w : ℕ) → ((if w == 5 then friday_text ∷ [] else []) ≡ []) ↔ (w ≢ 5)
friday-eq-nil_iff w = ground arith

-- The holidays of Bern in a year: five with a fixed date, and four at their distances from Easter.
abbrev pub feasts : ℕ → List (Day × String)
feasts y =
    (day y 1 1, "Neujahr")
    ∷ (day y 1 2, "Berchtoldstag")
    ∷ (days_before 2 (easter_sunday y), "Karfreitag")
    ∷ (days_after 1 (easter_sunday y), "Ostermontag")
    ∷ (days_after 39 (easter_sunday y), "Auffahrt")
    ∷ (days_after 50 (easter_sunday y), "Pfingstmontag")
    ∷ (day y 8 1, "Bundesfeier")
    ∷ (day y 12 25, "Weihnachten")
    ∷ (day y 12 26, "Stephanstag")
    ∷ []

pub holiday_days-feasts : (y : ℕ) → 100 ≤ y → holiday_days y ≡ feasts y
unfolding holiday_days
holiday_days-feasts y h = rw (full_year_lem y h) refl

-- The day is no holiday of its own year.
abbrev pub IsWorkday : Day → Type 0
IsWorkday d = IsNoneOf (feasts d.year) d

schedule_warnings-parts :
    (d : Day)
    → IsDay d
    → (schedule_warnings d ≡ []) ↔ (
        (weekday d ≢ 5)
        × IsNoneOf (holiday_days d.year) d
        × IsNoneOf (holiday_days d.year) (days_after 1 d))
unfolding schedule_warnings
schedule_warnings-parts d h =
    let (split, join) = append-eq-nil_iff (if weekday d == 5 then friday_text ∷ [] else []) _ in
    let (split', join') =
      append-eq-nil_iff (warning holiday_text (lookup (key d) (bern_holidays d.year)))
        (warning eve_text (lookup (key (days_after 1 d)) (bern_holidays d.year))) in
    let (to, from) = friday-eq-nil_iff (weekday d) in
    let (to', from') = warning-holiday_iff holiday_text d.year d h in
    let (to'', from'') =
      warning-holiday_iff eve_text d.year (days_after 1 d) (days_after-IsDay 1 d h) in
    (
      λ p. let (a, bc) = split p in let (b, c) = split' bc in (to a, to' b, to'' c),
      λ (a, b, c). join (from a, join' (from' b, from'' c)),
    )

-- The last day of a year.
abbrev pub IsYearEnd : Day → Type 0
IsYearEnd d = (d.month ≡ 12) × (d.date ≡ 31)

year-days_after_one : (d : Day) → IsDay d → ¬ IsYearEnd d → (days_after 1 d).year ≡ d.year
unfolding days_after next month_length
year-days_after_one d h n = ground arith

-- On every day from the year 100 on but the last of a year, there are no warnings exactly when the day is no Friday,
-- it is no Bernese holiday, and the day after is none.
pub schedule_warnings-eq-nil_iff :
    (d : Day)
    → IsDay d
    → 100 ≤ d.year
    → ¬ IsYearEnd d
    → (schedule_warnings d ≡ []) ↔ ((weekday d ≢ 5) × IsWorkday d × IsWorkday (days_after 1 d))
schedule_warnings-eq-nil_iff d h late n =
    subst
      (λ y.
        (schedule_warnings d ≡ [])
        ↔ ((weekday d ≢ 5) × IsWorkday d × IsNoneOf (feasts y) (days_after 1 d)))
      (sym (year-days_after_one d h n))
      (subst
        (λ hs.
          (schedule_warnings d ≡ [])
          ↔ ((weekday d ≢ 5) × IsNoneOf hs d × IsNoneOf hs (days_after 1 d)))
        (holiday_days-feasts d.year late) (schedule_warnings-parts d h))

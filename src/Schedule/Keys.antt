-- ===== src/Schedule/Keys.antt =====
-- schedule-rules.ts: the texts under which the holidays are kept tell the days apart.
use Prim.Native.String.{count}
use text.Mathlib.TextLemmas.{append_inj, append_cancel_left, length-append}
use release_radar.Prelude.{ℕ, zero, suc, ◌<◌, ◌≡◌, refl, ap, String, Bool, true, ◌&&◌, ◌==◌, arith}
use release_radar.Prelude.Decimal.{decimal, value, value-decimal, value-zero, decimal_inj}
use release_radar.Calendar.{Day, IsDay, month_length}
use release_radar.Schedule.{◌◇◌, pad, key}

-- Whether a test passes on each of 0, …, bound - 1.
unfoldable pub every : (ℕ → Bool) → ℕ → Bool
every test zero = true
every test (suc bound) = every test bound && test bound

pub every_lem :
    (test : ℕ → Bool) (bound n : ℕ) → n < bound → every test bound ≡ true → test n ≡ true
unfolding every
every_lem test zero n below passed = absurd (omega arith)
every_lem test (suc bound) n below passed = ground (arith, every_lem test bound n)

two_places : every (λ n. count (pad n) == 2) 100 ≡ true
unfolding every pad
two_places = refl

count-pad : (n : ℕ) → n < 100 → count (pad n) ≡ 2
count-pad n h = let e = every_lem (λ k. count (pad k) == 2) 100 n h two_places in ground arith

value-pad : (n : ℕ) → value 0 (pad n) ≡ n
unfolding pad
value-pad n = ground (arith, value-zero (decimal n), value-decimal n)

pub pad_inj : (m n : ℕ) → pad m ≡ pad n → m ≡ n
pad_inj m n e = omega (arith, value-pad m, value-pad n, ap (value 0) e)

date-lt : (d : Day) → IsDay d → (d.month < 100) × (d.date < 100)
unfolding month_length
date-lt d h = ground arith

abbrev rest : Day → String
rest d = "-" ◇ pad d.month ◇ "-" ◇ pad d.date

count-rest : (d : Day) → IsDay d → count (rest d) ≡ 6
count-rest d h =
    let (m, k) = date-lt d h in
    omega (
      arith,
      length-append "-" (pad d.month ◇ "-" ◇ pad d.date),
      length-append (pad d.month) ("-" ◇ pad d.date),
      length-append "-" (pad d.date),
      count-pad d.month m,
      count-pad d.date k,
    )

day_path : (d e : Day) → d.year ≡ e.year → d.month ≡ e.month → d.date ≡ e.date → d ≡ e
day_path d e p q r = λ i. record { year = p i; month = q i; date = r i }

-- Different days have different keys.
pub key_inj : (d e : Day) → IsDay d → IsDay e → key d ≡ key e → d ≡ e
unfolding key
key_inj d e h k p =
    let same_length : count (decimal d.year) ≡ count (decimal e.year) = omega (
      arith,
      ap count p,
      length-append (decimal d.year) (rest d),
      length-append (decimal e.year) (rest e),
      count-rest d h,
      count-rest e k,
    ) in
    let (years, rests) = append_inj p same_length in
    let (months, dates) =
      append_inj (append_cancel_left "-" _ _ rests)
        (omega (arith, count-pad d.month (date-lt d h).0, count-pad e.month (date-lt e k).0)) in
    day_path d e (decimal_inj d.year e.year years) (pad_inj d.month e.month months)
      (pad_inj d.date e.date (append_cancel_left "-" _ _ dates))

-- ===== src/MasterData/Retry/Times.antt =====
-- master-data.jsx: how long the retries take, and how that time is shown.
use native.Mathlib.Nat.{two-pow-succ}
use release_radar.Prelude.{
  ℕ, zero, suc, ◌+◌, ◌*◌, ◌%◌, ◌^◌, ◌≤◌, ◌<◌, ◌≡◌, refl, ap, sym, ◌∙◌, true, false, arith, ltb,
  ◌==◌, length,
}
use release_radar.Prelude.Decimal.{decimal}
use release_radar.Prelude.Text.{◌◇◌}
use release_radar.MasterData.Retry.{
  Retry, exponential, build, delay, retries, retry_schedule, sum, rounded, format_sec,
}

length-build : (i n : ℕ) (f : ℕ → ℕ) → length (build i n f) ≡ n
length-build i zero f = refl
length-build i (suc n) f = ap suc (length-build (i + 1) n f)

double : (c n : ℕ) → c * 2 ^ (n + 1) ≡ c * 2 ^ n + c * 2 ^ n
double c n = grind (arith, two-pow-succ n)

sum-exponential : (i n c : ℕ) → sum (build i n (delay exponential c)) + c * 2 ^ i ≡ c * 2 ^ (i + n)
sum-exponential i zero c = let e : i + 0 ≡ i = omega arith in rw e (omega arith)
sum-exponential i (suc n) c =
    let e : i + suc n ≡ i + 1 + n = omega arith in
    rw e (omega (arith, sum-exponential (i + 1) n c, double c i))

exponential_schedule :
    (r : Retry)
    → r.strategy ≡ exponential
    → retry_schedule r ≡ build 0 (retries r) (delay exponential r.initial_delay_sec)
unfolding retry_schedule
exponential_schedule r h = rw h refl

sum-doubling : (n c : ℕ) → sum (build 0 n (delay exponential c)) + c ≡ c * 2 ^ n
sum-doubling n c =
    let e : 0 + n ≡ n = omega arith in
    let once : c * 2 ^ 0 ≡ c = omega arith in
    ap (sum (build 0 n (delay exponential c)) +◌) (sym once)
    ∙ sum-exponential 0 n c
    ∙ ap (λ k. c * 2 ^ k) e

-- With exponential retries there is one delay for each attempt after the first, and the delays and
-- the initial one together are the initial one, doubled as often as there are retries.
pub sum-retry_schedule :
    (r : Retry)
    → r.strategy ≡ exponential
    → (length (retry_schedule r) ≡ retries r)
      × (sum (retry_schedule r) + r.initial_delay_sec ≡ r.initial_delay_sec * 2 ^ retries r)
sum-retry_schedule r h = rw (exponential_schedule r h) (
  length-build 0 (retries r) (delay exponential r.initial_delay_sec),
  sum-doubling (retries r) r.initial_delay_sec,
)

-- A time of a minute or more, but less than an hour, with 30 or more odd seconds, is shown with a
-- minute too many.
pub format_sec-late :
    (m s : ℕ)
    → 1 ≤ m
    → m < 60
    → 30 ≤ s
    → s < 60
    → format_sec (60 * m + s) ≡ decimal (m + 1) ◇ "m " ◇ decimal s ◇ "s"
unfolding format_sec
format_sec-late m s h k l n =
    let e₁ : ltb (60 * m + s) 60 ≡ false = ground arith in
    let e₂ : ltb (60 * m + s) 3600 ≡ true = ground arith in
    let e₃ : rounded (60 * m + s) ≡ m + 1 = omega arith in
    let e₄ : (60 * m + s) % 60 ≡ s = omega arith in
    let e₅ : (s == 0) ≡ false = ground arith in rw (e₁, e₂, e₃, e₄, e₅) refl

-- ===== src/MasterData/Retry.antt =====
-- master-data.jsx: the retries of a channel's delivery (retrySchedule, retrySummary, formatSec and
-- the marks of ScheduleTimeline). Seconds and attempts are natural numbers.
pub mod Times
use text.Mathlib.Text.{◌==◌ as str_eq}
use release_radar.Prelude.{
  ℕ, zero, suc, ◌+◌, ◌-◌, ◌*◌, ◌/◌, ◌%◌, ◌^◌, ◌≤◌, ◌<◌, ◌≡◌, refl, ap, sym, ◌∙◌, Bool, true, false,
  not, ◌||◌, String, Option, none, some, List, [], ◌∷◌, ◌++◌, arith, ltb, leb, ◌==◌, length,
  if◌then◌else◌,
}
use release_radar.Prelude.Decimal.{decimal}
use release_radar.Prelude.Text.{◌◇◌}

pub data Strategy : Type 0 where
  no_retry fixed linear exponential : Strategy

pub record Retry : Type 0 where
  pub max_attempts : ℕ
  pub strategy : Strategy
  pub initial_delay_sec : ℕ
  pub alert_on_final_fail : Bool

-- `r.maxAttempts || 1`, less the first attempt; none of it for one attempt or fewer.
abbrev pub retries : Retry → ℕ
retries r = r.max_attempts - 1

-- `Array.from({ length: n }, (_, i) => f(i))`
abbrev pub build : ℕ → ℕ → (ℕ → ℕ) → List ℕ
build i zero f = []
build i (suc n) f = f i ∷ build (i + 1) n f

abbrev pub delay : Strategy → ℕ → ℕ → ℕ
delay no_retry init i = 0
delay fixed init i = init
delay linear init i = init * (i + 1)
delay exponential init i = init * 2 ^ i

unfoldable pub retry_schedule : Retry → List ℕ
retry_schedule r = elim r.strategy [
  | no_retry ↦ []
  | fixed ↦ build 0 (retries r) (delay fixed r.initial_delay_sec)
  | linear ↦ build 0 (retries r) (delay linear r.initial_delay_sec)
  | exponential ↦ build 0 (retries r) (delay exponential r.initial_delay_sec)
]

abbrev pub sum : List ℕ → ℕ
sum [] = 0
sum (x ∷ xs) = x + sum xs

-- `Math.round(s / 60)`
abbrev pub rounded : ℕ → ℕ
rounded s = (s + 30) / 60

unfoldable pub format_sec : ℕ → String
format_sec s =
    if ltb s 60
    then decimal s ◇ "s"
    else if ltb s 3600
    then decimal (rounded s) ◇ "m " ◇ (if s % 60 == 0 then "" else decimal (s % 60) ◇ "s")
    else decimal (rounded s) ◇ "m"

abbrev pub strategy_name : Strategy → String
strategy_name no_retry = "none"
strategy_name fixed = "fixed"
strategy_name linear = "linear"
strategy_name exponential = "exponential"

abbrev pub is_no_retry : Strategy → Bool
is_no_retry no_retry = true
is_no_retry _ = false

unfoldable pub retry_summary : Option Retry → String
unfolding retry_schedule format_sec
retry_summary none = "no retry"
retry_summary (some r) =
    if is_no_retry r.strategy || leb r.max_attempts 1
    then "no retry"
    else decimal r.max_attempts
      ◇ "× · "
      ◇ strategy_name r.strategy
      ◇ " · total ~"
      ◇ format_sec (sum (retry_schedule r))
      ◇ (if r.alert_on_final_fail then " · page on fail" else "")

-- The moments of the attempts after the first, from the first: `cum`.
abbrev pub cumulate : ℕ → List ℕ → List ℕ
cumulate acc [] = []
cumulate acc (d ∷ delays) = (acc + d) ∷ cumulate (acc + d) delays

unfoldable pub attempt_times : Retry → List ℕ
unfolding retry_schedule
attempt_times r = cumulate 0 (retry_schedule r)

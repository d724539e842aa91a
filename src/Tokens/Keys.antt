-- ===== src/Tokens/Keys.antt =====
-- docs.jsx: the tab of the API keys, with its search, its numbers and the times that a token shows. The
-- case of letters and the format of a date are parameters; times are counted in minutes.
use Prim.Native.String
use Prim.Native.String.{len}
use release_radar.Prelude.{
  ℕ, ◌+◌, ◌-◌, ◌*◌, ◌/◌, ◌≤◌, ◌≡◌, max, Bool, true, ◌&&◌, ◌||◌, String, Option, none, some, List,
  filter, length, any, ltb, leb, refl, arith, if◌then◌else◌,
}
use release_radar.Prelude.Decimal.{decimal}
use release_radar.Prelude.Text.{◌◇◌, trim, is_empty}
use release_radar.Calendar.{Day, number}
use release_radar.Tokens.{Moment, Token, is_active}

abbrev pub has_text : String → String → Bool
has_text s q = leb (String.find s q) (len s)

-- The query is trimmed only for the test whether there is one.
unfoldable pub found_tokens : (String → String) → String → List Token → List Token
found_tokens lower query tokens =
    let q = lower query in
    if is_empty (trim query)
    then tokens
    else filter
        (λ (t : Token).
          has_text (lower t.name) q
          || (has_text (lower t.id) q
              || (has_text (lower t.prefix) q || any (λ s. has_text (lower s) q) t.scopes)))
        tokens

abbrev pub minutes : Moment → ℕ
minutes m = number m.on * 1440 + m.hour * 60 + m.minute

-- `TODAY` is a midnight.
abbrev pub midnight : Day → ℕ
midnight d = number d * 1440

abbrev pub is_idle : Day → Option Moment → Bool
is_idle today none = true
is_idle today (some m) = ltb (minutes m + 30 * 1440) (midnight today)

unfoldable pub unused : Day → List Token → ℕ
unused today tokens = length (filter (λ t. is_active t && is_idle today t.last_used_at) tokens)

-- Of a time that lies after `now`, the rounded hours are not above zero.
abbrev pub hours_since : ℕ → ℕ → ℕ
hours_since now t = (2 * (now - t) + 60) / 120

abbrev pub days_since : ℕ → ℕ → ℕ
days_since now t = (2 * (now - t) + 1440) / 2880

-- `fmtAgo`, with the word behind the number: the badge of an expiry puts " from now" for " ago".
unfoldable pub fmt_time : (Moment → String) → String → Day → Option Moment → String
fmt_time long word today none = "—"
fmt_time long word today (some m) =
    if ltb (midnight today) (minutes m + 1440)
    then decimal (max 1 (hours_since (midnight today) (minutes m))) ◇ "h" ◇ word
    else if ltb (midnight today) (minutes m + 30 * 1440)
    then decimal (days_since (midnight today) (minutes m)) ◇ "d" ◇ word
    else long m

unfoldable pub fmt_ago : (Moment → String) → Day → Option Moment → String
unfolding fmt_time
fmt_ago long today m = fmt_time long " ago" today m

unfoldable pub expiry_text : (Moment → String) → Day → Option Moment → String
unfolding fmt_time
expiry_text long today m = "expires " ◇ fmt_time long " from now" today m

-- A token that expires today or later is said to expire in one hour, whatever its day.
pub expiry_text_later :
    (long : Moment → String) (today : Day) (m : Moment)
    → midnight today ≤ minutes m
    → expiry_text long today (some m) ≡ "expires 1h from now"
unfolding expiry_text fmt_time decimal
expiry_text_later long today m h = rw (soon (minutes m) h, one (minutes m) h) refl
  where
    soon : (t : ℕ) → midnight today ≤ t → ltb (midnight today) (t + 1440) ≡ true
    soon t k = ground arith

    one : (t : ℕ) → midnight today ≤ t → max 1 (hours_since (midnight today) t) ≡ 1
    one t k = ground arith

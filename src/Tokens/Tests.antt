-- ===== src/Tokens/Tests.antt =====
-- The tokens of docs.jsx.
use release_radar.Prelude.{
  ◌≡◌, ◌+◌, ◌≤◌, refl, arith, String, none, some, List, [], ◌∷◌, map, length, length-filter-not,
}
use release_radar.Prelude.Text.{trim, trim_start, trim_end, split_commas}
use release_radar.Calendar.{day, days_after, next, month_length, number, before_year, before_month}
use release_radar.Prelude.Decimal.{decimal}
use release_radar.Tokens.Keys.{found_tokens, minutes, midnight, unused, fmt_time, fmt_ago}
use release_radar.Tokens.{
  Moment, moment, Token, seed_tokens, is_active, active_count, revoked_count, revoke, expiring,
  new_form, toggle_scope, generate, created,
}

tokens_code : Unit {0}
unfolding active_count revoked_count revoke expiring toggle_scope generate trim trim_start trim_end
    split_commas days_after next month_length number before_year before_month
tokens_code = tt

abbrev now : Moment
now = moment (day 2026 5 27) 12 0

counts :
    (active_count seed_tokens ≡ 3)
    × (revoked_count (revoke now "tok_01HZ5K8Y" seed_tokens) ≡ 2)
    × (expiring (day 2026 9 10) seed_tokens ≡ 1)
    × (expiring (day 2026 5 27) seed_tokens ≡ 0)
unfolding tokens_code
counts = (refl, refl, refl, refl)

refused : generate now "rr_pat_abcdefgh" "tok_A" new_form ≡ none
unfolding tokens_code
refused = refl

generated :
    map {B = String × List String}
      (λ (t : Token). (t.prefix, t.scopes))
      (created
        (generate now "rr_pat_abcdefgh" "tok_A"
          (toggle_scope "masterdata.read" (record new_form { name = " CI " })))
        [])
    ≡ ("rr_pat_abcde", "rollouts.read" ∷ []) ∷ []
unfolding tokens_code
generated = refl

-- The two counts share out the tokens.
active_count-revoked_count :
    (tokens : List Token) → active_count tokens + revoked_count tokens ≡ length tokens
unfolding active_count revoked_count
active_count-revoked_count tokens = length-filter-not is_active tokens

shown :
    (fmt_ago (λ m. "long") (day 2026 5 27) (some (moment (day 2026 5 25) 0 0)) ≡ "2d ago")
    × (fmt_ago (λ m. "long") (day 2026 5 27) none ≡ "—")
    × (unused (day 2026 7 20) seed_tokens ≡ 3)
    × (length (found_tokens (λ s. s) "calendar" seed_tokens) ≡ 1)
unfolding tokens_code fmt_ago fmt_time decimal unused found_tokens
shown = (refl, refl, refl, refl)

-- A token that expires in three weeks.
three_weeks : midnight (day 2026 5 27) ≤ minutes (moment (day 2026 6 17) 0 0)
unfolding tokens_code
three_weeks = omega arith

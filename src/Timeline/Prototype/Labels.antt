-- ===== src/Timeline/Prototype/Labels.antt =====
-- timeline.jsx: the text on the connector of two stages.
use release_radar.Prelude.{ℕ, suc, ◌+◌, ◌*◌, ◌≡◌, some, arith, true, ap}
use release_radar.Prelude.Decimal.{decimal}
use release_radar.Prelude.Text.{◌◇◌}
use release_radar.Prelude.Int.{
  ℤ, pos, negsuc, pos_part, neg_part, int_laws, ◌+ℤ◌, ◌-ℤ◌, ◌*ℤ◌, ltb_ℤ,
}
use release_radar.Timeline.{cascade, day_w}
use release_radar.Timeline.Prototype.{cascade_label, label_days}

of_parts : (z : ℤ) (n : ℕ) → pos_part z ≡ n + neg_part z → z ≡ pos n
of_parts (pos m) n h = ap pos (omega arith)
of_parts (negsuc m) n h = absurd (omega arith)

abbrev width : ℤ → ℕ → ℤ
width a d = (a +ℤ pos (suc d)) *ℤ pos day_w +ℤ pos 12 -ℤ (a *ℤ pos day_w +ℤ pos 44)

width_lem : (a : ℤ) (d : ℕ) → width a d ≡ pos (24 + d * day_w)
width_lem a d = of_parts (width a d) (24 + d * day_w) (omega int_laws)

label_days_lem : (d : ℕ) → label_days (24 + d * day_w) ≡ d
label_days_lem d = omega arith

wide : (d : ℕ) → ltb_ℤ (pos 0) (pos (24 + d * day_w)) ≡ true
wide d = ground arith

-- The connector between two stages that are some days apart, one at least, says one day less.
pub cascade_label_lem :
    (a : ℤ) (d : ℕ) → cascade_label a (a +ℤ pos (suc d)) ≡ some ("+" ◇ decimal d ◇ "d")
unfolding cascade_label cascade
cascade_label_lem a d =
    rw (width_lem a d, wide d) (ap (λ n. some ("+" ◇ decimal n ◇ "d")) (label_days_lem d))

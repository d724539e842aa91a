-- ===== src/Prelude/Decimal.antt =====
-- `String(n)` at a natural number, and that it can be read back.
use Prim.Native.Nat.{ℕ, zero, suc, ◌+◌, ◌-◌, ◌*◌, ◌/◌, ◌%◌, ◌<◌}
use Prim.Native.Char.{code}
use Prim.Native.String.{String, ◌++◌, slice}
use mathlib.Core.Path.{◌≡◌, refl, ap, subst, ◌∙◌}
use mathlib.Core.Logic.{inl, inr}
use native.Mathlib.Omega.{arith}
use text.Mathlib.TextLemmas.{nil-append, cons-append}
use release_radar.Prelude.Tests.{ltb, if◌then◌else◌, Bool-cases}

abbrev pub digit : ℕ → String
digit n = slice "0123456789" n (n + 1)

-- The fuel is above the number.
decimal_from : ℕ → ℕ → String
decimal_from zero n = ""
decimal_from (suc f) n =
    let more = decimal_from f (n / 10) ++ digit (n % 10) in if ltb n 10 then digit n else more

unfoldable pub decimal : ℕ → String
unfolding decimal_from
decimal n = decimal_from (suc n) n

-- The number that a text of digits writes, behind `acc`.
pub value : ℕ → String → ℕ
value acc String.[] = acc
value acc (String.◌∷◌ c s) = value (acc * 10 + (code c - 48)) s

pub value-append : (acc : ℕ) (s t : String) → value acc (s ++ t) ≡ value (value acc s) t
unfolding value
value-append acc String.[] t = ap (value acc) (nil-append t)
value-append acc (String.◌∷◌ c s) t =
    ap (value acc) (cons-append c s t) ∙ value-append (acc * 10 + (code c - 48)) s t

abbrev AllBelow : (ℕ → Type 0) → ℕ → Type 0
AllBelow P zero = Unit
AllBelow P (suc n) = AllBelow P n × P n

below : (P : ℕ → Type 0) (n d : ℕ) → AllBelow P n → d < n → P d
below P zero d h lt = absurd (omega arith)
below P (suc n) d (h, p) lt = elim (Bool-cases (ltb d n)) [
  | inl small ↦ below P n d h (ground arith)
  | inr last ↦ subst P (ground arith) p
]

value-digit : (acc d : ℕ) → d < 10 → value acc (digit d) ≡ acc * 10 + d
unfolding value
value-digit acc d h =
    below (λ n. value acc (digit n) ≡ acc * 10 + n) 10 d
      ((((((((((tt, refl), refl), refl), refl), refl), refl), refl), refl), refl), refl) h

value-decimal_from : (f n : ℕ) → n < f → value 0 (decimal_from f n) ≡ n
unfolding decimal_from
value-decimal_from zero n h = absurd (omega arith)
value-decimal_from (suc f) n h = elim (Bool-cases (ltb n 10)) [
  | inl small ↦ rw small (value-digit 0 n (ground arith) ∙ omega arith)
  | inr large ↦ rw large (
      value-append 0 (decimal_from f (n / 10)) (digit (n % 10))
      ∙ ap (λ (x : ℕ). value x (digit (n % 10))) (value-decimal_from f (n / 10) (ground arith))
      ∙ value-digit (n / 10) (n % 10) (omega arith)
      ∙ omega arith)
]

pub value-decimal : (n : ℕ) → value 0 (decimal n) ≡ n
unfolding decimal
value-decimal n = value-decimal_from (suc n) n (omega arith)

pub value-zero : (s : String) → value 0 ("0" ++ s) ≡ value 0 s
unfolding value
value-zero s = value-append 0 "0" s

-- Different numbers are written differently.
pub decimal_inj : (m n : ℕ) → decimal m ≡ decimal n → m ≡ n
decimal_inj m n e = omega (arith, value-decimal m, value-decimal n, ap (value 0) e)

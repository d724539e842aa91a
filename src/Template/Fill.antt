-- ===== src/Template/Fill.antt =====
-- master-data.jsx, renderTemplate: a variable is filled in.
use Prim.Native.Char.{code}
use text.Mathlib.TextLemmas.{nil-append, cons-append}
use release_radar.Prelude.{
  ℕ, suc, ◌+◌, ◌≡◌, ◌∙◌, ap, ap₂, sym, refl, true, false, String, some, ◌==◌, arith,
}
use release_radar.Prelude.Text.{◌◇◌, is_empty}
use release_radar.Template.{
  is_word, word_of, after_word, behind, then_behind, closed, var_at, size, emitted, skipped,
  fill_from, fill,
}

abbrev pub AreWords : String → Type 0
AreWords String.[] = Unit
AreWords (String.◌∷◌ c s) = (is_word (code c) ≡ true) × AreWords s

-- No brace opens.
abbrev pub IsPlain : String → Type 0
IsPlain String.[] = Unit
IsPlain (String.◌∷◌ c s) = (code c == 123 ≡ false) × IsPlain s

-- The text behind a variable's key.
abbrev closing : String → String
closing b = String.◌∷◌ "}" (String.◌∷◌ "}" b)

abbrev opening : String → String
opening s = String.◌∷◌ "{" (String.◌∷◌ "{" s)

word_of-key : (key b : String) → AreWords key → word_of (key ◇ closing b) ≡ key
unfolding word_of
word_of-key String.[] b h = ap word_of (nil-append (closing b))
word_of-key (String.◌∷◌ c s) b h =
    ap word_of (cons-append c s (closing b)) ∙ rw h.0 (ap (String.◌∷◌ c) (word_of-key s b h.1))

after_word-key : (key b : String) → AreWords key → after_word (key ◇ closing b) ≡ closing b
unfolding after_word
after_word-key String.[] b h = ap after_word (nil-append (closing b))
after_word-key (String.◌∷◌ c s) b h =
    ap after_word (cons-append c s (closing b)) ∙ rw h.0 (after_word-key s b h.1)

var_at-opening :
    (key b : String)
    → AreWords key
    → is_empty key ≡ false
    → var_at (opening (key ◇ closing b)) ≡ some key
unfolding var_at
var_at-opening key b h n =
    ap₂ (λ k r. closed k (then_behind 125 (behind 125 r))) (word_of-key key b h)
      (after_word-key key b h)
    ∙ rw n refl

module _ (value : String → String) where
  fill_skip :
      (key t : String) (k : ℕ) → fill_from value (size key + k) (key ◇ t) ≡ fill_from value k t
  unfolding fill_from
  fill_skip String.[] t k =
      let e : 0 + k ≡ k = omega arith in ap₂ (fill_from value) e (nil-append t)
  fill_skip (String.◌∷◌ c s) t k =
      let e : suc (size s) + k ≡ suc (size s + k) = omega arith in
      ap₂ (fill_from value) e (cons-append c s t) ∙ fill_skip s t k

  fill-variable :
      (key b : String)
      → AreWords key
      → is_empty key ≡ false
      → fill_from value 0 (opening (key ◇ closing b)) ≡ value key ◇ fill_from value 0 b
  unfolding fill_from
  fill-variable key b h n =
      ap
        (λ v.
          emitted value v "{"
          ◇ fill_from value (skipped value v) (String.◌∷◌ "{" (key ◇ closing b)))
        (var_at-opening key b h n)
      ∙ ap (λ r. value key ◇ r)
          (ap (λ k. fill_from value k (String.◌∷◌ "{" (key ◇ closing b))) skip
            ∙ fill_skip key (closing b) 2)
    where
      skip : size key + 3 ≡ suc (size key + 2)
      skip = omega arith

  fill-plain : (a t : String) → IsPlain a → fill_from value 0 (a ◇ t) ≡ a ◇ fill_from value 0 t
  unfolding fill_from var_at
  fill-plain String.[] t h =
      ap (fill_from value 0) (nil-append t) ∙ sym (nil-append (fill_from value 0 t))
  fill-plain (String.◌∷◌ c s) t h =
      ap (fill_from value 0) (cons-append c s t)
      ∙ rw h.0 (
          cons-append c "" (fill_from value 0 (s ◇ t))
          ∙ ap (String.◌∷◌ c) (nil-append (fill_from value 0 (s ◇ t)) ∙ fill-plain s t h.1)
          ∙ sym (cons-append c s (fill_from value 0 t)))

  -- The first variable of a template, with a key of one letter, digit, dot or underscore and more, is
  -- replaced by its value, the text before it, in which no brace opens, stays as it is, and the rest is
  -- filled in likewise.
  pub fill_lem :
      (a key b : String)
      → IsPlain a
      → AreWords key
      → is_empty key ≡ false
      → fill value (a ◇ "{{" ◇ key ◇ "}}" ◇ b) ≡ a ◇ value key ◇ fill value b
  unfolding fill
  fill_lem a key b p h n =
      fill-plain a ("{{" ◇ key ◇ "}}" ◇ b) p
      ∙ ap (λ t. a ◇ fill_from value 0 t) braces
      ∙ ap (λ t. a ◇ t) (fill-variable key b h n)
    where
      braces : "{{" ◇ key ◇ "}}" ◇ b ≡ opening (key ◇ closing b)
      braces =
          cons-append "{" "{" (key ◇ "}}" ◇ b)
          ∙ ap (String.◌∷◌ "{") (cons-append "{" "" (key ◇ "}}" ◇ b))
          ∙ ap (λ t. opening t) (nil-append (key ◇ "}}" ◇ b) ∙ ap (λ t. key ◇ t) close)
        where
          close : "}}" ◇ b ≡ closing b
          close =
              cons-append "}" "}" b
              ∙ ap (String.◌∷◌ "}") (cons-append "}" "" b)
              ∙ ap (λ t. closing t) (nil-append b)

-- ===== src/Template/Escape.antt =====
-- master-data.jsx, renderTemplate: the escape of `&`, `<` and `>`.
use Prim.Native.Char.{code, Char}
use text.Mathlib.TextLemmas.{nil-append, cons-append, append_assoc, append-nil}
use release_radar.Prelude.{
  ℕ, ◌≡◌, ◌≢◌, ◌∙◌, ap, ap₂, sym, subst, refl, false, String, ◌==◌, Bool-cases, inl, inr, arith,
  if◌then◌else◌,
}
use release_radar.Prelude.Text.{◌◇◌}
use release_radar.Template.{replace_char, escape}

-- All three at once.
abbrev pub escape_char : Char → String
escape_char c =
    if code c == 38
    then "&amp;"
    else if code c == 60
    then "&lt;"
    else if code c == 62
    then "&gt;"
    else String.◌∷◌ c ""

pub escape_all : String → String
escape_all String.[] = ""
escape_all (String.◌∷◌ c s) = escape_char c ◇ escape_all s

replace_char-append :
    (k : ℕ) (text s t : String)
    → replace_char k text (s ◇ t) ≡ replace_char k text s ◇ replace_char k text t
unfolding replace_char
replace_char-append k text String.[] t =
    ap (replace_char k text) (nil-append t) ∙ sym (nil-append (replace_char k text t))
replace_char-append k text (String.◌∷◌ c s) t =
    ap (replace_char k text) (cons-append c s t)
    ∙ ap (λ r. (if code c == k then text else String.◌∷◌ c "") ◇ r) (replace_char-append k text s t)
    ∙ sym (
        append_assoc (if code c == k then text else String.◌∷◌ c "") (replace_char k text s)
          (replace_char k text t))

escape-append : (s t : String) → escape (s ◇ t) ≡ escape s ◇ escape t
unfolding escape
escape-append s t =
    ap (λ r. replace_char 62 "&gt;" (replace_char 60 "&lt;" r)) (replace_char-append 38 "&amp;" s t)
    ∙ ap (replace_char 62 "&gt;")
        (replace_char-append 60 "&lt;" (replace_char 38 "&amp;" s) (replace_char 38 "&amp;" t))
    ∙ replace_char-append 62 "&gt;" (replace_char 60 "&lt;" (replace_char 38 "&amp;" s))
        (replace_char 60 "&lt;" (replace_char 38 "&amp;" t))

replace_char_one :
    (k : ℕ) (text : String) (c : Char)
    → replace_char k text (String.◌∷◌ c "") ≡ (if code c == k then text else String.◌∷◌ c "")
unfolding replace_char
replace_char_one k text c = append-nil (if code c == k then text else String.◌∷◌ c "")

escape_from :
    (c : Char) {s : String}
    → replace_char 38 "&amp;" (String.◌∷◌ c "") ≡ s
    → escape (String.◌∷◌ c "") ≡ replace_char 62 "&gt;" (replace_char 60 "&lt;" s)
unfolding escape
escape_from c e = ap (λ r. replace_char 62 "&gt;" (replace_char 60 "&lt;" r)) e

escape_one : (c : Char) → escape (String.◌∷◌ c "") ≡ escape_char c
escape_one c = elim (Bool-cases (code c == 38)) [
  | inl amp ↦
      escape_from c {s = "&amp;"} (replace_char_one 38 "&amp;" c ∙ rw amp refl) ∙ rw amp entity_amp
  | inr not_amp ↦
      escape_from c {s = String.◌∷◌ c ""} (replace_char_one 38 "&amp;" c ∙ rw not_amp refl)
      ∙ ap (replace_char 62 "&gt;") (replace_char_one 60 "&lt;" c)
      ∙ angle not_amp
]
  where
    entity_amp : replace_char 62 "&gt;" (replace_char 60 "&lt;" "&amp;") ≡ "&amp;"
    entity_amp = unfold replace_char in refl

    angle :
        code c == 38 ≡ false
        → replace_char 62 "&gt;" (if code c == 60 then "&lt;" else String.◌∷◌ c "") ≡ escape_char c
    angle not_amp = elim (Bool-cases (code c == 60)) [
      | inl lt ↦ rw (not_amp, lt) (unfold replace_char in refl)
      | inr not_lt ↦ rw (not_amp, not_lt) (replace_char_one 62 "&gt;" c)
    ]

-- No character is an angle bracket.
abbrev pub HasNoTags : String → Type 0
HasNoTags String.[] = Unit
HasNoTags (String.◌∷◌ c s) = (code c ≢ 60) × (code c ≢ 62) × HasNoTags s

HasNoTags-append : (s t : String) → HasNoTags s → HasNoTags t → HasNoTags (s ◇ t)
HasNoTags-append String.[] t h k = subst HasNoTags (sym (nil-append t)) k
HasNoTags-append (String.◌∷◌ c s) t h k =
    subst HasNoTags (sym (cons-append c s t)) (h.0, h.1, HasNoTags-append s t h.2 k)

escape_char-HasNoTags : (c : Char) → HasNoTags (escape_char c)
escape_char-HasNoTags c = elim (Bool-cases (code c == 38)) [
  | inl amp ↦ rw amp (omega arith)
  | inr not_amp ↦ elim (Bool-cases (code c == 60)) [
    | inl lt ↦ rw (not_amp, lt) (omega arith)
    | inr not_lt ↦ elim (Bool-cases (code c == 62)) [
      | inl gt ↦ rw (not_amp, not_lt, gt) (omega arith)
      | inr not_gt ↦ rw (not_amp, not_lt, not_gt) (ground arith, ground arith, tt)
    ]
  ]
]

escape_all-HasNoTags : (s : String) → HasNoTags (escape_all s)
unfolding escape_all
escape_all-HasNoTags String.[] = tt
escape_all-HasNoTags (String.◌∷◌ c s) =
    HasNoTags-append (escape_char c) (escape_all s) (escape_char-HasNoTags c)
      (escape_all-HasNoTags s)

escape-eq-escape_all : (s : String) → escape s ≡ escape_all s
unfolding escape_all
escape-eq-escape_all String.[] = unfold escape in unfold replace_char in refl
escape-eq-escape_all (String.◌∷◌ c s) =
    ap escape (sym (cons-append c "" s ∙ ap (String.◌∷◌ c) (nil-append s)))
    ∙ escape-append (String.◌∷◌ c "") s
    ∙ ap₂ ◌◇◌ (escape_one c) (escape-eq-escape_all s)

-- The three replacements, one after the other, escape each `&`, `<` and `>` of a text once, as if all were
-- replaced at once, and the result has no angle bracket.
pub escape_lem : (s : String) → (escape s ≡ escape_all s) × HasNoTags (escape s)
escape_lem s =
    let e = escape-eq-escape_all s in (e, subst HasNoTags (sym e) (escape_all-HasNoTags s))

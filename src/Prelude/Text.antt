-- ===== src/Prelude/Text.antt =====
-- `trim`, `split(',')` and `join` of JavaScript's texts.
use Prim.Native.Char.{code}
use Prim.Native.String
use release_radar.Prelude.{
  ℕ, Bool, true, false, ◌&&◌, ◌||◌, String, List, [], ◌∷◌, ◌==◌, ◌≡◌, refl, leb, if◌then◌else◌,
}

-- The characters that `trim` takes off, by their codes.
abbrev pub is_space : ℕ → Bool
is_space c =
    c == 32
    || (leb 9 c && leb c 13)
    || c == 160
    || c == 5760
    || (leb 8192 c && leb c 8202)
    || c == 8232
    || c == 8233
    || c == 8239
    || c == 8287
    || c == 12288
    || c == 65279

abbrev pub is_empty : String → Bool
is_empty String.[] = true
is_empty (String.◌∷◌ c s) = false

unfoldable pub trim_start : String → String
trim_start String.[] = ""
trim_start (String.◌∷◌ c s) = if is_space (code c) then trim_start s else String.◌∷◌ c s

unfoldable pub trim_end : String → String
trim_end String.[] = ""
trim_end (String.◌∷◌ c s) =
    let rest = trim_end s in if is_empty rest && is_space (code c) then "" else String.◌∷◌ c rest

unfoldable pub trim : String → String
unfolding trim_start trim_end
trim s = trim_end (trim_start s)

abbrev pub put_char : String → List String → List String
put_char c [] = c ∷ []
put_char c (s ∷ parts) = String.◌++◌ c s ∷ parts

unfoldable pub split_commas : String → List String
split_commas String.[] = "" ∷ []
split_commas (String.◌∷◌ c s) =
    let parts = split_commas s in
    if code c == 44 then "" ∷ parts else put_char (String.◌∷◌ c "") parts

infixr 60 ◌◇◌
abbrev pub ◌◇◌ : String → String → String
s ◇ t = String.◌++◌ s t

abbrev pub join : String → List String → String
join sep [] = ""
join sep (s ∷ []) = s
join sep (s ∷ t ∷ rest) = s ◇ sep ◇ join sep (t ∷ rest)

trims : trim "  a b " ≡ "a b"
unfolding trim
trims = refl

splits : split_commas "LM, SK," ≡ "LM" ∷ " SK" ∷ "" ∷ []
unfolding split_commas
splits = refl

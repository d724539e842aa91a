-- ===== src/Template.antt =====
-- design/project/master-data.jsx: the announcement's templates with their variables, and renderTemplate,
-- which fills in a sample and turns a little markdown into HTML.
pub mod Escape
pub mod Fill
mod Tests
use text.Mathlib.Text.{◌==◌ as str_eq}
use Prim.Native.Char.{code}
use Prim.Native.String
use Prim.Native.String.{slice, len}
use release_radar.Prelude.{
  ℕ, zero, suc, ◌+◌, ◌-◌, Bool, true, false, not, ◌&&◌, ◌||◌, String, Option, none, some, List, [],
  ◌∷◌, map, leb, ◌==◌, if◌then◌else◌,
}
use release_radar.Prelude.Dict.{lookup}
use release_radar.Prelude.Text.{◌◇◌, is_empty}

abbrev pub template_vars : List (String × String)
template_vars =
    ("{{rollout.title}}", "Rollout title")
    ∷ ("{{rollout.id}}", "Rollout id (e.g. r-101)")
    ∷ ("{{rollout.descExt}}", "External description")
    ∷ ("{{rollout.descInt}}", "Internal description")
    ∷ ("{{rollout.risks}}", "Risk text")
    ∷ ("{{rollout.pair}}", "Comma-separated pair names")
    ∷ ("{{rollout.runbook}}", "Runbook URL")
    ∷ ("{{type.name}}", "Rollout type name")
    ∷ ("{{type.short}}", "Rollout type short label")
    ∷ ("{{product.name}}", "Product name")
    ∷ ("{{stage.label}}", "Stage label (e.g. prod1 · Frankfurt)")
    ∷ ("{{stage.region}}", "Stage region")
    ∷ ("{{stage.dateLocal}}", "Stage start (locale-aware)")
    ∷ ("{{stage.durationHours}}", "Stage duration in hours")
    ∷ []

abbrev pub sample : List (String × String)
sample =
    ("rollout.title", "operator 24.7 — broker auth refactor")
    ∷ ("rollout.id", "r-101")
    ∷ (
      "rollout.descExt",
      "operator 24.7 rollout. Customers may observe transient broker creation latency during the maintenance window.",
    )
    ∷ (
      "rollout.descInt",
      "Includes oracle migration rev 14 + solace exporter v2.3. Pair-reviewed by Luc/Henning.",
    )
    ∷ ("rollout.risks", "Deployment + broker creation disabled for ~2h.")
    ∷ ("rollout.pair", "Luc Baumann, Henning Hoffer")
    ∷ ("rollout.runbook", "https://docs.example/runbooks/operator")
    ∷ ("type.name", "operator feature (oracle & solace)")
    ∷ ("type.short", "operator feature")
    ∷ ("product.name", "operator")
    ∷ ("stage.label", "prod1 · Frankfurt")
    ∷ ("stage.region", "Frankfurt-am-Main")
    ∷ ("stage.dateLocal", "Mon, 02 Jun 2026 · 10:00 CET")
    ∷ ("stage.durationHours", "2")
    ∷ []

abbrev pub default_template_prod : String
default_template_prod =
    "📦 **{{rollout.title}}** — {{type.short}}\n\n**Product:** {{product.name}}\n"
    ◇ "**Stage:** {{stage.label}} · {{stage.region}}\n"
    ◇ "**Window:** {{stage.dateLocal}} · ~{{stage.durationHours}}h\n"
    ◇ "**Pair:** {{rollout.pair}}\n\n{{rollout.descExt}}\n\n_Risks:_ {{rollout.risks}}\n\n"
    ◇ "— ReleaseRadar (rollout-id {{rollout.id}})"

abbrev pub default_template_np : String
default_template_np =
    "🔧 **{{rollout.title}}** — {{type.short}}\n\n"
    ◇ "Heads-up: deploying to **{{stage.label}}** at {{stage.dateLocal}} (~{{stage.durationHours}}h).\n"
    ◇ "Pair: {{rollout.pair}} · ID: {{rollout.id}}\n\n{{rollout.descInt}}"

-- A character of `[\w.]`.
abbrev pub is_word : ℕ → Bool
is_word c =
    (leb 97 c && leb c 122)
    || (leb 65 c && leb c 90)
    || (leb 48 c && leb c 57)
    || c == 95
    || c == 46

-- The longest run of such characters, and what is behind it.
unfoldable pub word_of : String → String
word_of String.[] = ""
word_of (String.◌∷◌ c s) =
    let rest = word_of s in if is_word (code c) then String.◌∷◌ c rest else ""

unfoldable pub after_word : String → String
after_word String.[] = ""
after_word (String.◌∷◌ c s) =
    let rest = after_word s in if is_word (code c) then rest else String.◌∷◌ c s

-- The text behind a given character, if the text begins with it.
abbrev pub behind : ℕ → String → Option String
behind k String.[] = none
behind k (String.◌∷◌ c s) = if code c == k then some s else none

abbrev pub then_behind : ℕ → Option String → Option String
then_behind k none = none
then_behind k (some s) = behind k s

abbrev pub closed : String → Option String → Option String
closed key none = none
closed key (some rest) = if is_empty key then none else some key

abbrev pub key_of : Option String → Option String
key_of none = none
key_of (some s) = closed (word_of s) (then_behind 125 (behind 125 (after_word s)))

-- The key of the variable `{{key}}` with which a text begins.
unfoldable pub var_at : String → Option String
unfolding word_of after_word
var_at s = key_of (then_behind 123 (behind 123 s))

abbrev pub size : String → ℕ
size String.[] = 0
size (String.◌∷◌ c s) = suc (size s)

module _ (value : String → String) where
  abbrev pub emitted : Option String → String → String
  emitted none c = c
  emitted (some key) c = value key

  -- How many characters of the variable are behind its first.
  abbrev pub skipped : Option String → ℕ
  skipped none = 0
  skipped (some key) = size key + 3

  -- `tpl.replace(/\{\{([\w.]+)\}\}/g, ...)`, with the number of characters still to be skipped.
  unfoldable pub fill_from : ℕ → String → String
  unfolding var_at
  fill_from k String.[] = ""
  fill_from (suc k) (String.◌∷◌ c s) = fill_from k s
  fill_from zero (String.◌∷◌ c s) =
      let var = var_at (String.◌∷◌ c s) in emitted var (String.◌∷◌ c "") ◇ fill_from (skipped var) s

  unfoldable pub fill : String → String
  unfolding fill_from
  fill s = fill_from zero s

-- The sample's value of a key, or a mark for an unknown one; the names that every object of the language
-- inherits, such as `constructor`, are taken to be no keys.
unfoldable pub sample_value : String → String
unfolding lookup
sample_value key = elim (lookup key sample) [
  | none ↦ "<span class=\"rr-md-var-missing\">{{" ◇ key ◇ "}}</span>"
  | some v ↦ v
]

-- `replace(/c/g, text)`
unfoldable pub replace_char : ℕ → String → String → String
replace_char k text String.[] = ""
replace_char k text (String.◌∷◌ c s) =
    (if code c == k then text else String.◌∷◌ c "") ◇ replace_char k text s

unfoldable pub escape : String → String
unfolding replace_char
escape s = replace_char 62 "&gt;" (replace_char 60 "&lt;" (replace_char 38 "&amp;" s))

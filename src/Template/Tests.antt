-- ===== src/Template/Tests.antt =====
-- The announcement's templates, and the theorems there.
use release_radar.Prelude.{◌≡◌, refl, String, some, [], ◌∷◌, map}
use release_radar.Prelude.Dict.{lookup}
use release_radar.Prelude.Text.{◌◇◌}
use release_radar.Template.{
  template_vars, word_of, after_word, var_at, fill_from, fill, sample_value, replace_char, escape,
}
use release_radar.Template.Escape.{escape_all, HasNoTags, escape_lem}
use release_radar.Template.Fill.{fill_lem}

template_code : Unit {0}
unfolding word_of after_word var_at fill_from fill sample_value lookup replace_char escape
template_code = tt

filled :
    (fill sample_value "ID: {{rollout.id}}, ~{{stage.durationHours}}h {{ {{x}} {{}}"
      ≡ "ID: r-101, ~2h {{ <span class=\"rr-md-var-missing\">{{x}}</span> {{}}")
    × (var_at "{{type.short}} {{" ≡ some "type.short")
unfolding template_code
filled = (refl, refl)

-- The sample has a value for each of the variables that are offered.
offered :
    map (λ (v : String × String). fill sample_value v.0) template_vars
    ≡ "operator 24.7 — broker auth refactor" ∷ "r-101"
      ∷ "operator 24.7 rollout. Customers may observe transient broker creation latency during the maintenance window."
      ∷ "Includes oracle migration rev 14 + solace exporter v2.3. Pair-reviewed by Luc/Henning."
      ∷ "Deployment + broker creation disabled for ~2h." ∷ "Luc Baumann, Henning Hoffer"
      ∷ "https://docs.example/runbooks/operator" ∷ "operator feature (oracle & solace)"
      ∷ "operator feature" ∷ "operator" ∷ "prod1 · Frankfurt" ∷ "Frankfurt-am-Main"
      ∷ "Mon, 02 Jun 2026 · 10:00 CET" ∷ "2" ∷ []
unfolding template_code
offered = refl

escaped : escape "a & <b>" ≡ "a &amp; &lt;b&gt;"
unfolding template_code
escaped = refl

fill_lem_example :
    fill sample_value ("ID: " ◇ "{{" ◇ "rollout.id" ◇ "}}" ◇ "!")
    ≡ "ID: " ◇ sample_value "rollout.id" ◇ fill sample_value "!"
fill_lem_example =
    fill_lem sample_value "ID: " "rollout.id" "!" (refl, (refl, (refl, (refl, tt))))
      (refl, (refl, (refl, (refl, (refl, (refl, (refl, (refl, (refl, (refl, tt)))))))))) refl

escape_lem_example : (escape "<&>" ≡ escape_all "<&>") × HasNoTags (escape "<&>")
escape_lem_example = escape_lem "<&>"

-- ===== src/Stage/Policy.antt =====
-- shell.jsx: the announcement policy asks for the longest notice on each channel.
use text.Mathlib.Text.{◌==◌ as str_eq}
use release_radar.Prelude.{
  ℕ, ◌≡◌, refl, ap, ◌∙◌, max, String, Option, none, some, List, [], ◌∷◌, arith, if◌then◌else◌,
  eq_iff,
}
use release_radar.Prelude.Dict.{lookup, lookup-insert}
use release_radar.Stage.{StageMeta, note_channel, note_all}

-- The longest notice so far on a channel, with one more stage.
abbrev pub longer : String → StageMeta → Option ℕ → Option ℕ
longer ch s none = if str_eq s.announce_channel ch then some s.min_advance_hours else none
longer ch s (some h) =
    if str_eq s.announce_channel ch then some (max h s.min_advance_hours) else some h

-- The longest notice among stages: none, if no stage is announced on the channel.
abbrev pub longest : String → Option ℕ → List StageMeta → Option ℕ
longest ch o [] = o
longest ch o (s ∷ metas) = longest ch (longer ch s o) metas

lookup-note_channel :
    (ch : String) (s : StageMeta) (seen : List (String × ℕ))
    → lookup ch (note_channel s seen) ≡ longer ch s (lookup ch seen)
unfolding note_channel
lookup-note_channel ch s seen = ground (
  arith,
  lookup-insert s.announce_channel ch s.min_advance_hours seen,
  eq_iff s.announce_channel ch,
  ap (λ k. lookup k seen) {x = s.announce_channel} {y = ch},
)

-- What the policy notes for a channel is the longest notice of the stages announced on it, and
-- nothing, if there is none.
pub lookup-note_all :
    (ch : String) (metas : List StageMeta) (seen : List (String × ℕ))
    → lookup ch (note_all metas seen) ≡ longest ch (lookup ch seen) metas
lookup-note_all ch [] seen = refl
lookup-note_all ch (s ∷ metas) seen =
    lookup-note_all ch metas (note_channel s seen)
    ∙ ap (λ o. longest ch o metas) (lookup-note_channel ch s seen)

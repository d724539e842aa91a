-- ===== src/Tokens.antt =====
-- design/project/docs.jsx: the API tokens of the docs view. What is random is an argument, and so is
-- the present moment; a moment is a day of the calendar with its hour and minute.
pub mod Keys
mod Tests
use text.Mathlib.Text.{◌==◌ as str_eq}
use Prim.Native.String.{slice}
use release_radar.Prelude.{
  ℕ, Bool, true, false, not, ◌&&◌, ◌||◌, String, Option, none, some, List, [], ◌∷◌, ◌++◌, map,
  filter, length, includes, without, if◌then◌else◌, ltb, ◌+◌,
}
use release_radar.Prelude.Text.{◌◇◌, trim, is_empty, split_commas}
use release_radar.Calendar.{Day, day, days_after, number}

pub record Moment : Type 0 where
  pub on : Day
  pub hour : ℕ
  pub minute : ℕ

abbrev pub moment : Day → ℕ → ℕ → Moment
moment d h m = record { on = d; hour = h; minute = m }

pub data TokenStatus : Type 0 where
  active revoked : TokenStatus

pub record Token : Type 0 where
  pub id : String
  pub name : String
  pub prefix : String
  pub scopes : List String
  pub created_by : String
  pub created_at : Moment
  pub last_used_at : Option Moment
  pub expires_at : Option Moment
  pub status : TokenStatus
  pub revoked_at : Option Moment
  pub ip_allowlist : List String

abbrev pub seed_tokens : List Token
seed_tokens =
    record {
      id = "tok_01HZ5K8X";
      name = "GitLab CI — operator deploy";
      prefix = "rr_pat_a8sd";
      scopes = "rollouts.read" ∷ "rollouts.execute" ∷ "masterdata.read" ∷ [];
      created_by = "luc";
      created_at = moment (day 2026 4 4) 14 30;
      last_used_at = some (moment (day 2026 5 27) 9 12);
      expires_at = some (moment (day 2026 10 4) 0 0);
      status = active;
      revoked_at = none;
      ip_allowlist = "10.42.0.0/16" ∷ [];
    }
    ∷ record {
      id = "tok_01HZ5K8Y";
      name = "Claude Desktop — Mira";
      prefix = "rr_pat_x21q";
      scopes = "rollouts.read" ∷ "masterdata.read" ∷ [];
      created_by = "mira";
      created_at = moment (day 2026 5 12) 10 0;
      last_used_at = some (moment (day 2026 5 26) 17 48);
      expires_at = none;
      status = active;
      revoked_at = none;
      ip_allowlist = [];
    }
    ∷ record {
      id = "tok_01HZ5K8Z";
      name = "Calendar subscription — Henning";
      prefix = "rr_cal_p9mn";
      scopes = "calendar.read" ∷ [];
      created_by = "hen";
      created_at = moment (day 2026 2 18) 9 0;
      last_used_at = some (moment (day 2026 5 27) 6 30);
      expires_at = none;
      status = active;
      revoked_at = none;
      ip_allowlist = [];
    }
    ∷ record {
      id = "tok_01HZ5K90";
      name = "Old GitLab CI (rotated)";
      prefix = "rr_pat_qq22";
      scopes = "rollouts.read" ∷ "rollouts.execute" ∷ [];
      created_by = "luc";
      created_at = moment (day 2025 12 1) 0 0;
      last_used_at = some (moment (day 2026 4 3) 0 0);
      expires_at = none;
      status = revoked;
      revoked_at = some (moment (day 2026 4 4) 0 0);
      ip_allowlist = [];
    }
    ∷ []

-- The scopes, with their labels.
abbrev pub all_scopes : List (String × String)
all_scopes =
    ("rollouts.read", "List & read rollouts")
    ∷ ("rollouts.write", "Create, patch, delete rollouts")
    ∷ ("rollouts.execute", "Execute stages, mark tasks, reschedule")
    ∷ ("masterdata.read", "List products / stages / types / channels / actors")
    ∷ ("masterdata.write", "Edit master data")
    ∷ ("locks.manage", "Create and lift locks")
    ∷ ("locks.bypass", "Force-execute through an active lock")
    ∷ ("calendar.read", "Subscribe to iCalendar feed")
    ∷ ("webhooks.manage", "Register & manage webhooks")
    ∷ []

abbrev pub is_active : Token → Bool
is_active t = elim t.status [ active ↦ true | revoked ↦ false ]

abbrev pub visible : Bool → List Token → List Token
visible show_revoked tokens = filter (λ t. show_revoked || is_active t) tokens

unfoldable pub active_count : List Token → ℕ
active_count tokens = length (filter is_active tokens)

unfoldable pub revoked_count : List Token → ℕ
revoked_count tokens = length (filter (λ t. not (is_active t)) tokens)

unfoldable pub revoke : Moment → String → List Token → List Token
revoke now id tokens =
    map (λ t. if str_eq t.id id then record t { status = revoked; revoked_at = some now } else t)
      tokens

-- An active token that expires in less than 30 days from `TODAY`, which is a midnight.
abbrev pub expires_soon : Day → Option Moment → Bool
expires_soon today none = false
expires_soon today (some m) = ltb (number m.on) (number today + 30)

unfoldable pub expiring : Day → List Token → ℕ
expiring today tokens = length (filter (λ t. is_active t && expires_soon today t.expires_at) tokens)

-- The form of a new token; `expiry` is a number of days, or nothing for "never".
pub record TokenForm : Type 0 where
  pub name : String
  pub scopes : List String
  pub expiry : Option ℕ
  pub ip_allow : String

abbrev pub new_form : TokenForm
new_form = record {
  name = "";
  scopes = "rollouts.read" ∷ "masterdata.read" ∷ [];
  expiry = some 90;
  ip_allow = "";
}

unfoldable pub toggle_scope : String → TokenForm → TokenForm
toggle_scope s f = record f {
  scopes = if includes f.scopes s then without f.scopes s else f.scopes ++ s ∷ [];
}

abbrev pub expiry_of : Moment → Option ℕ → Option Moment
expiry_of now none = none
expiry_of now (some n) = some (record now { on = days_after n now.on })

abbrev pub has_none : List String → Bool
has_none [] = true
has_none (x ∷ xs) = false

-- The token, and its secret, which is shown once. `value` is "rr_pat_" and four random texts, `id`
-- "tok_" and one.
unfoldable pub generate : Moment → String → String → TokenForm → Option (Token × String)
generate now value id f =
    if is_empty (trim f.name) || has_none f.scopes
    then none
    else some (
      record {
        id = id;
        name = trim f.name;
        prefix = slice value 0 12;
        scopes = f.scopes;
        created_by = "luc";
        created_at = now;
        last_used_at = none;
        expires_at = expiry_of now f.expiry;
        status = active;
        revoked_at = none;
        ip_allowlist = filter (λ s. not (is_empty s)) (map trim (split_commas f.ip_allow));
      },
      value,
    )

abbrev pub created : Option (Token × String) → List Token → List Token
created none tokens = tokens
created (some t) tokens = t.0 ∷ tokens

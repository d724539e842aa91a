-- ===== src/Data.antt =====
-- design/project/data.js: the data of the prototype. Offsets are whole days from its `TODAY`.
pub mod Types
pub mod Rollouts
mod Tests
use text.Mathlib.Text.{◌==◌ as str_eq}
use release_radar.Prelude.{ℕ, ◌+◌, Bool, String, Option, List, [], ◌∷◌, find, ◌==◌}
use release_radar.Prelude.Int.{ℤ, pos, negsuc}
use release_radar.Calendar.{Day, day, weekday}
use release_radar.Rollout.{Product, Actor, RolloutType, admin, readonly, LockKind, manual, holiday}

pub record MockStage : Type 0 where
  pub env : String
  pub offset : ℤ
  pub time : String
  pub duration : ℕ
  pub status : String

pub record MockRollout : Type 0 where
  pub id : String
  pub product : String
  pub type_id : String
  pub title : String
  pub stages : List MockStage
  pub pair : List String
  pub risks : String
  pub desc_ext : String
  pub desc_int : String
  pub checked : List ℕ

pub record MockLock : Type 0 where
  pub id : String
  pub title : String
  pub description : String
  pub contact : String
  pub start_offset : ℤ
  pub end_offset : ℤ
  pub products : List String
  pub kind : LockKind

abbrev pub products : List Product
products =
    record {
      id = "operator";
      name = "operator";
      owner = "Team Athena";
      brokers = "frankfurt-01" ∷ "frankfurt-02" ∷ "zeus-01" ∷ "zeus-02" ∷ [];
    }
    ∷ record {
      id = "concentrator";
      name = "concentrator";
      owner = "Team Athena";
      brokers = "frankfurt-01" ∷ "frankfurt-02" ∷ "zeus-01" ∷ "zeus-02" ∷ [];
    }
    ∷ record {
      id = "monalesy";
      name = "monalesy";
      owner = "Team Hermes";
      brokers = "mon-eu-1" ∷ "mon-eu-2" ∷ [];
    }
    ∷ record {
      id = "microservices";
      name = "micro services";
      owner = "Platform Core";
      brokers =
          "frontend" ∷ "appluser" ∷ "monitoring" ∷ "eks-info" ∷ "solace-exporter" ∷ "ca" ∷ "msg-dup"
          ∷ [];
    }
    ∷ []

abbrev pub actors : List Actor
actors =
    record { id = "luc"; name = "Luc B."; initials = "LB"; hue = 210; role = admin }
    ∷ record { id = "hen"; name = "Henning H."; initials = "HH"; hue = 30; role = admin }
    ∷ record { id = "mira"; name = "Mira K."; initials = "MK"; hue = 280; role = admin }
    ∷ record { id = "tomas"; name = "Tomáš P."; initials = "TP"; hue = 150; role = admin }
    ∷ record { id = "sina"; name = "Sina W."; initials = "SW"; hue = 340; role = readonly }
    ∷ record { id = "ravi"; name = "Ravi N."; initials = "RN"; hue = 195; role = admin }
    ∷ []

abbrev pub today : Day
today = day 2026 5 27

abbrev pub locks_raw : List MockLock
locks_raw =
    record {
      id = "l-1";
      title = "Berner Feiertag — Auffahrt";
      description = "Cantonal holiday (Bern). No rollouts permitted.";
      contact = "—";
      start_offset = pos 7;
      end_offset = pos 7;
      products = "all" ∷ [];
      kind = holiday;
    }
    ∷ record {
      id = "l-2";
      title = "Master Branch Bug #4029";
      description =
          "Auth token leak present on master. Do not deploy until hotfix branch is merged. Force-push on master is NOT permitted.";
      contact = "Luc B. — #tms-platform";
      start_offset = negsuc 0;
      end_offset = pos 3;
      products = "microservices" ∷ "operator" ∷ [];
      kind = manual;
    }
    ∷ record {
      id = "l-3";
      title = "Easter Friday";
      description = "Public holiday. No rollouts.";
      contact = "—";
      start_offset = pos 14;
      end_offset = pos 14;
      products = "all" ∷ [];
      kind = holiday;
    }
    ∷ []

unfoldable pub is_friday : Day → Bool
is_friday d = weekday d == 5

unfoldable pub get_product : String → Option Product
get_product id = find (λ p. str_eq p.id id) products

unfoldable pub get_actor : String → Option Actor
get_actor id = find (λ a. str_eq a.id id) actors

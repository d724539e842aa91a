-- ===== src/Rollout.antt =====
-- frontend/src/app/core/models/rollout.models.ts: the data that the client works on. A moment is its
-- number of milliseconds, a duration a number of nanoseconds.
use release_radar.Prelude.{ℕ, String, Option, List}

pub data Role : Type 0 where
  admin readonly : Role

pub record Actor : Type 0 where
  pub id : String
  pub name : String
  pub initials : String
  pub hue : ℕ
  pub role : Role

pub record Product : Type 0 where
  pub id : String
  pub name : String
  pub owner : String
  pub brokers : List String

pub record CascadeStage : Type 0 where
  pub stage : String
  pub delay_hours : ℕ

pub record RolloutType : Type 0 where
  pub id : String
  pub name : String
  pub short : String
  pub tone : String
  pub cascade_plan : List CascadeStage
  pub announce : String
  pub rules : List String
  pub tasks : List String

pub record RolloutStage : Type 0 where
  pub env : String
  pub start_at : ℕ
  pub duration_ns : ℕ
  pub status : String

-- The status of a task that is neither done nor failed is the empty text.
pub data TaskStatus : Type 0 where
  pending done failed : TaskStatus

pub record RolloutTask : Type 0 where
  pub index : ℕ
  pub description : String
  pub status : TaskStatus
  pub reason : Option String

pub record Rollout : Type 0 where
  pub id : String
  pub product : String
  pub type_id : String
  pub title : String
  pub desc_ext : String
  pub desc_int : String
  pub risks : String
  pub stages : List RolloutStage
  pub pair : Option (List String)
  pub tasks : List RolloutTask

pub data LockKind : Type 0 where
  manual holiday window : LockKind

pub record Lock : Type 0 where
  pub id : String
  pub title : String
  pub description : String
  pub contact : String
  pub start_at : ℕ
  pub end_at : ℕ
  pub products : List String
  pub kind : LockKind

pub record SessionUser : Type 0 where
  pub email : String
  pub name : String
  pub initials : String
  pub role : Role
  pub groups : List String

-- ===== src/Api.antt =====
-- frontend/src/app/core/api/api.service.ts: the requests that the client sends. What the views keep as
-- their calls becomes one of them.
mod Tests
use release_radar.Prelude.{ℕ, String, Option, none, some}
use release_radar.Prelude.Decimal.{decimal}
use release_radar.Prelude.Text.{◌◇◌}
use release_radar.Rollout.{Product, RolloutType, Rollout, TaskStatus}
use release_radar.Create
use release_radar.Create.{LockBody}
use release_radar.Create.Rollouts.{RolloutBody}
use release_radar.Detail
use release_radar.MasterView

pub data Method : Type 0 where
  get post patch delete : Method

-- What is sent along. `rollout_update` is the part of a rollout that the page sends.
pub data Body : Type 0 where
  product_body : Product → Body
  type_body : RolloutType → Body
  rollout_body : RolloutBody → Body
  rollout_update : Rollout → Body
  task_update : TaskStatus → (reason : String) → Body
  lock_body : LockBody → Body

pub record Request : Type 0 where
  pub method : Method
  pub url : String
  pub body : Option Body

abbrev pub api : String
api = "/api"

abbrev pub get_from : String → Request
get_from path = record { method = get; url = api ◇ path; body = none }

abbrev pub send_to : Method → String → Body → Request
send_to m path b = record { method = m; url = api ◇ path; body = some b }

abbrev pub delete_at : String → Request
delete_at path = record { method = delete; url = api ◇ path; body = none }

unfoldable pub me : Request
me = get_from "/me"

unfoldable pub products : Request
products = get_from "/products"

unfoldable pub upsert_product : Product → Request
upsert_product p = send_to post "/products" (product_body p)

unfoldable pub rollout_types : Request
rollout_types = get_from "/rollout-types"

unfoldable pub upsert_rollout_type : RolloutType → Request
upsert_rollout_type t = send_to post "/rollout-types" (type_body t)

unfoldable pub rollouts : Request
rollouts = get_from "/rollouts"

unfoldable pub rollout : String → Request
rollout id = get_from ("/rollouts/" ◇ id)

unfoldable pub create_rollout : RolloutBody → Request
create_rollout b = send_to post "/rollouts" (rollout_body b)

unfoldable pub update_rollout : String → Rollout → Request
update_rollout id d = send_to patch ("/rollouts/" ◇ id) (rollout_update d)

unfoldable pub delete_rollout : String → Request
delete_rollout id = delete_at ("/rollouts/" ◇ id)

unfoldable pub update_task : String → ℕ → TaskStatus → String → Request
unfolding decimal
update_task id seq status reason =
    send_to patch ("/rollouts/" ◇ id ◇ "/tasks/" ◇ decimal seq) (task_update status reason)

unfoldable pub locks : Request
locks = get_from "/locks"

unfoldable pub create_lock : LockBody → Request
create_lock b = send_to post "/locks" (lock_body b)

unfoldable pub update_lock : String → LockBody → Request
update_lock id b = send_to patch ("/locks/" ◇ id) (lock_body b)

unfoldable pub delete_lock : String → Request
delete_lock id = delete_at ("/locks/" ◇ id)

-- The requests of the page's calls, of the lock form's and of the master data's.
unfoldable pub detail_request : Detail.Call → Request
unfolding update_task update_rollout delete_rollout
detail_request (Detail.update_task id seq status reason) = update_task id seq status reason
detail_request (Detail.update_rollout id d) = update_rollout id d
detail_request (Detail.delete_rollout id) = delete_rollout id

unfoldable pub lock_request : Create.Call → Request
unfolding create_lock update_lock
lock_request (Create.create_lock b) = create_lock b
lock_request (Create.update_lock id b) = update_lock id b

unfoldable pub data_request : MasterView.Call → Request
unfolding upsert_product upsert_rollout_type
data_request (MasterView.upsert_product p) = upsert_product p
data_request (MasterView.upsert_rollout_type t) = upsert_rollout_type t

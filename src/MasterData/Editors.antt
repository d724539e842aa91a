-- ===== src/MasterData/Editors.antt =====
-- master-data.jsx: the editors of the rollout types, the actors and the locks.
use release_radar.Prelude.{String, map}
use release_radar.Rollout.{RolloutType}
use release_radar.Data.{MockLock, actors, locks_raw}
use release_radar.Data.Types.{rollout_types}
use release_radar.MasterData.{Editor, init, update, add, remove}
use release_radar.MasterData.Products.{ActorItem, actor_item, new_actor, new_type, new_lock}

abbrev pub type_id : RolloutType → String
type_id t = t.id

abbrev pub actor_id : ActorItem → String
actor_id a = a.actor.id

abbrev pub lock_id : MockLock → String
lock_id l = l.id

unfoldable pub types_editor : Editor RolloutType
unfolding init
types_editor = init type_id rollout_types

unfoldable pub update_type : (RolloutType → RolloutType) → Editor RolloutType → Editor RolloutType
unfolding update
update_type patch e = update type_id patch e

unfoldable pub add_type : String → Editor RolloutType → Editor RolloutType
unfolding add
add_type id e = add type_id (new_type id) e

unfoldable pub remove_type : String → Editor RolloutType → Editor RolloutType
unfolding remove
remove_type id e = remove type_id id e

unfoldable pub actors_editor : Editor ActorItem
unfolding init
actors_editor = init actor_id (map actor_item actors)

unfoldable pub add_actor : String → Editor ActorItem → Editor ActorItem
unfolding add
add_actor id e = add actor_id (new_actor id) e

unfoldable pub locks_editor : Editor MockLock
unfolding init
locks_editor = init lock_id locks_raw

unfoldable pub add_lock : String → Editor MockLock → Editor MockLock
unfolding add
add_lock id e = add lock_id (new_lock id) e

unfoldable pub remove_lock : String → Editor MockLock → Editor MockLock
unfolding remove
remove_lock id e = remove lock_id id e

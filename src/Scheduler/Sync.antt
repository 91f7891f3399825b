-- ===== src/Scheduler/Sync.antt =====
-- internal/gocli/start_scheduler.go: syncServiceTasks. What the file and the recovery records answer is an
-- argument.
pub mod Reset
pub mod Due
pub mod Setup
pub mod Turn
pub mod Settled
pub mod Requeued
pub mod Kept
use nana.Prelude.{
  String, Option, none, some, List, [], ◌∷◌, ◌==◌, if◌then◌else◌, is_some, lookup, keys_of,
  trim_space,
}
use nana.Scheduler.State.{PlannedItem, WorkState, Coordinator, put_item}
use nana.Scheduler.Sync.Reset.{reset_tasks}
use nana.Scheduler.Sync.Due.{upsert_scouts, upsert_sync, upsert_issues, sort_keys}

-- readStartWorkStateUnlocked.
pub data Stored : Type 0 where
  missing : Stored
  unreadable : String → Stored
  stored : List (String × PlannedItem) → Stored

-- The planned items that only the file has.
unfoldable pub merge_items : List (String × PlannedItem) → Coordinator → Coordinator
merge_items [] c = c
merge_items ((id, item) ∷ items) c =
    merge_items items
      (if is_some (lookup id (WorkState.planned_items c.state)) then c else put_item id item c)

-- What syncServiceTasks returns: an error of the two reads, or of the write.
pub data SyncError : Type 0 where
  state_unreadable recovery_unreadable write_failed : String → SyncError

pub data Active : Type 0 where
  active_owners : List String → Active
  active_unreadable : String → Active

unfoldable pub sync_tasks : String → List String → String → Coordinator → Coordinator
sync_tasks implement_mode active now c =
    let reset = reset_tasks active now (keys_of (WorkState.service_tasks c.state)) c in
    let scouted = upsert_sync now (upsert_scouts now reset.scout_roles reset) in
    upsert_issues implement_mode now
      (sort_keys (keys_of (WorkState.issues (Coordinator.state reset)))) scouted

unfoldable pub sync_behind_read :
    Option String → Active → String → String → Coordinator → Coordinator × Option SyncError
sync_behind_read write (active_unreadable e) implement_mode now c =
    (c, some (recovery_unreadable e))
sync_behind_read none (active_owners active) implement_mode now c =
    (sync_tasks implement_mode active now c, none)
sync_behind_read (some e) (active_owners active) implement_mode now c =
    (sync_tasks implement_mode active now c, some (write_failed e))

unfoldable pub sync_service_tasks :
    Stored → Option String → Active → String → String → Coordinator → Coordinator × Option SyncError
sync_service_tasks (unreadable e) write active implement_mode now c =
    if trim_space c.repo_slug == ""
    then sync_behind_read write active implement_mode now c
    else (c, some (state_unreadable e))
sync_service_tasks missing write active implement_mode now c =
    sync_behind_read write active implement_mode now c
sync_service_tasks (stored items) write active implement_mode now c =
    sync_behind_read write active implement_mode now
      (if trim_space c.repo_slug == "" then c else merge_items items c)

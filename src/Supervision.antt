-- ===== src/Supervision.antt =====
-- task.go: opTaskHandoff and opTaskUnpublish.
pub mod RoomsKept
pub mod Retract
pub mod Handoff
use lalia.Prelude.{
  ℕ, String, Bool, false, not, ◌&&◌, ◌||◌, Option, none, some, List, [], ◌∷◌, if◌then◌else◌, ltb,
  ◌==◌, add_name, remove_name, keep, length, true,
}
use lalia.Prelude.Dict
use lalia.Prelude.Dict.{get}
use lalia.Types.{Room, Agent, Task, TaskList, State}
use lalia.Response
use lalia.Response.{
  Response, ok, error_response, handed_off, unpublished, Removal, preserved_default,
  nothing_to_remove, worktree_removed, remove_failed, code_error, code_not_found, code_unauthorized,
  missing_from, missing_slug, missing_project, missing_to, not_supervisor, task_list_not_found,
  agent_not_found, unpublish_needs_force, worktree_not_clean, owner_lease_live,
}
use lalia.Room.{persist_room_members}
use lalia.Rooms.{set_room}
use lalia.TaskRooms.{archive_room}
use lalia.Registry.{agent_by_name}
use lalia.Session.{status_merged}
use lalia.Task.{
  role_is, present, require_supervisor, unless_refused, Row, row, find_row, missing_row, set_tasks,
  persist_task_list,
}

-- opTaskHandoff
unfoldable pub active_slugs : List Task → List String
active_slugs [] = []
active_slugs (t ∷ ts) =
    if not (t.status == status_merged) then t.slug ∷ active_slugs ts else active_slugs ts

unfoldable pub hand_room : String → String → Room → Room
hand_room from to r = record r { members = remove_name from (add_name to r.members) }

unfoldable pub hand_found : String → String → String → Option Room → State → State
hand_found from to slug none s = s
hand_found from to slug (some r) s =
    persist_room_members (hand_room from to r) (set_room slug (hand_room from to r) s)

unfoldable pub hand_rooms : String → String → List String → State → State
unfolding hand_found
hand_rooms from to [] s = s
hand_rooms from to (slug ∷ slugs) s =
    hand_rooms from to slugs (hand_found from to slug (get slug s.rooms) s)

unfoldable pub hand_list : ℕ → String → String → String → Option TaskList → State → State × Response
unfolding active_slugs
hand_list now from to pid none s = (s, error_response code_not_found task_list_not_found)
hand_list now from to pid (some tl) s =
    let tl' = record tl { supervisor = to; updated_at = now } in
    (
      hand_rooms from to (active_slugs tl.tasks) (persist_task_list tl' (set_tasks pid tl' s)),
      ok (handed_off pid to),
    )

unfoldable pub op_task_handoff : ℕ → String → String → String → State → State × Response
op_task_handoff now from to pid s =
    if from == ""
    then (s, error_response code_error missing_from)
    else if to == ""
    then (s, error_response code_error missing_to)
    else if pid == ""
    then (s, error_response code_error missing_project)
    else unless_refused (require_supervisor from pid s)
        (if not (present (agent_by_name to s))
          then (s, error_response code_not_found agent_not_found)
          else if not (role_is "supervisor" (agent_by_name to s))
          then (s, error_response code_unauthorized not_supervisor)
          else hand_list now from to pid (get pid s.tasks) s)
        s

-- opTaskUnpublish. `is_clean` is what worktreeIsClean says of the task's worktree, and
-- `is_removed` whether removeWorktree succeeds.
abbrev pub log_length : Option Room → ℕ
log_length none = 0
log_length (some r) = length r.log

abbrev pub is_live : ℕ → Option Agent → Bool
is_live now none = false
is_live now (some a) = ltb now a.expires_at

unfoldable pub drop_row : ℕ → String → String → Option TaskList → State → State
drop_row now pid slug none s = s
drop_row now pid slug (some tl) s =
    let tl' = record tl {
      tasks = keep (λ (t : Task). not (t.slug == slug)) tl.tasks;
      updated_at = now;
    } in
    persist_task_list tl' (set_tasks pid tl' s)

-- What becomes of the worktree: `wipe` asks for its removal, `known` tells that it and its repository
-- are on record, and `is_removed` is what git answers.
unfoldable pub removal : Bool → Bool → Bool → Removal
removal false known is_removed = preserved_default
removal true false is_removed = nothing_to_remove
removal true true true = worktree_removed
removal true true false = remove_failed

unfoldable pub retract : ℕ → String → String → Bool → Removal → State → State × Response
unfolding drop_row set_tasks
retract now pid slug has_room removed s =
    let s' = (archive_room slug s).0 in
    (drop_row now pid slug (get pid s'.tasks) s', ok (unpublished slug has_room removed))

module _ (force wipe evict is_clean is_removed : Bool) where
  unfoldable pub unpublish_row : ℕ → String → String → Row → State → State × Response
  unfolding retract removal
  unpublish_row now pid slug (row tl t) s =
      let room = get slug s.rooms in
      let has_owner = not (t.owner == "") in
      let has_worktree = not (t.worktree == "") in
      if (has_owner || ltb 1 (log_length room)) && not force
      then (s, error_response code_error unpublish_needs_force)
      else if wipe && (has_worktree && not is_clean)
      then (s, error_response code_error worktree_not_clean)
      else if wipe
          && (has_worktree && (has_owner && (is_live now (agent_by_name t.owner s) && not evict)))
      then (s, error_response code_error owner_lease_live)
      else retract now pid slug (present room)
          (removal wipe (has_worktree && not (tl.repo_root == "")) is_removed) s
  unpublish_row now pid slug r s = missing_row r s

  unfoldable pub op_task_unpublish : ℕ → String → String → String → State → State × Response
  op_task_unpublish now from slug pid s =
      if from == ""
      then (s, error_response code_error missing_from)
      else if slug == ""
      then (s, error_response code_error missing_slug)
      else if pid == ""
      then (s, error_response code_error missing_project)
      else unless_refused (require_supervisor from pid s)
          (unpublish_row now pid slug (find_row pid slug s) s) s

-- ===== src/Task.antt =====
-- task.go: task lists, and the handlers that claim, assign and flip tasks.
pub mod RoomsKept
pub mod Rows
pub mod Claims
pub mod Once
use lalia.Prelude.{
  ℕ, String, Bool, true, false, not, ◌&&◌, ◌||◌, Option, none, some, List, [], ◌∷◌, if◌then◌else◌,
  ◌==◌, remove_name,
}
use lalia.Prelude.Dict
use lalia.Prelude.Dict.{get, put}
use lalia.Types.{RoomMessage, Room, Agent, Task, TaskList, State, task_list_file, Content}
use lalia.Response
use lalia.Response.{
  Response, ok, error_response, Reason, task_row, task_claimed, code_error, code_not_found,
  code_unauthorized, missing_from, missing_slug, missing_params, missing_project, not_registered,
  not_supervisor, not_project_supervisor, supervisor_cannot_claim, task_list_not_found,
  slug_not_found, not_open, not_your_row, status_not_allowed, invalid_status, owner_not_registered,
}
use lalia.Queue.{enqueue_write}
use lalia.Room.{persist_room_members}
use lalia.Rooms.{set_room}
use lalia.TaskRooms.{ensure_room_with_members}
use lalia.Registry.{agent_by_name}
use lalia.Session.{status_merged}

abbrev pub status_open : String
status_open = "open"

abbrev pub status_assigned : String
status_assigned = "assigned"

abbrev pub status_in_progress : String
status_in_progress = "in-progress"

abbrev pub status_ready : String
status_ready = "ready"

abbrev pub status_blocked : String
status_blocked = "blocked"

-- workerStatuses[status]
unfoldable pub worker_status : String → Bool
worker_status st = (st == status_in_progress) || (st == status_ready) || (st == status_blocked)

unfoldable pub valid_status : String → Bool
unfolding worker_status
valid_status st =
    worker_status st || (st == status_merged) || (st == status_open) || (st == status_assigned)

-- findTask: the first task of that slug
unfoldable pub find_task : String → List Task → Option Task
find_task slug [] = none
find_task slug (t ∷ ts) = if t.slug == slug then some t else find_task slug ts

-- A write through the pointer that findTask returns
unfoldable pub set_task : String → Task → List Task → List Task
set_task slug t' [] = []
set_task slug t' (t ∷ ts) = if t.slug == slug then t' ∷ ts else t ∷ set_task slug t' ts

-- persistTaskList
unfoldable pub persist_task_list : TaskList → State → State
persist_task_list tl s = enqueue_write (task_list_file tl.project_id) (Content.task_list tl) s

unfoldable pub set_tasks : String → TaskList → State → State
set_tasks pid tl s = record s { tasks = put pid tl s.tasks }

-- The change of one task, of its list, and the write of the list.
unfoldable pub store_task : ℕ → String → String → Task → TaskList → State → State
unfolding set_tasks
store_task now pid slug t tl s =
    let tl' = record tl { tasks = set_task slug t tl.tasks; updated_at = now } in
    persist_task_list tl' (set_tasks pid tl' s)

abbrev pub role_is : String → Option Agent → Bool
role_is role none = false
role_is role (some a) = a.role == role

abbrev pub present {ℓ} : {A : Type ℓ} → Option A → Bool
present none = false
present (some a) = true

abbrev pub supervised_by_other : String → Option TaskList → Bool
supervised_by_other from none = false
supervised_by_other from (some tl) = not (tl.supervisor == from)

-- requireSupervisor: the reason of the refusal, if there is one
unfoldable pub require_supervisor : String → String → State → Option Reason
require_supervisor from pid s =
    if not (present (agent_by_name from s))
    then some not_registered
    else if not (role_is "supervisor" (agent_by_name from s))
    then some not_supervisor
    else if supervised_by_other from (get pid s.tasks)
    then some not_project_supervisor
    else none

-- The task list of a project and the task of a slug, or the error for the one that is missing.
pub data Row : Type 0 where
  no_list no_task : Row
  row : TaskList → Task → Row

unfoldable pub row_in : TaskList → Option Task → Row
row_in tl none = no_task
row_in tl (some t) = row tl t

unfoldable pub row_of_list : String → Option TaskList → Row
row_of_list slug none = no_list
row_of_list slug (some tl) = row_in tl (find_task slug tl.tasks)

unfoldable pub find_row : String → String → State → Row
unfolding row_of_list row_in
find_row pid slug s = row_of_list slug (get pid s.tasks)

-- `if resp, ok := s.requireSupervisor(…); !ok { return resp }`
unfoldable pub unless_refused : Option Reason → State × Response → State → State × Response
unless_refused (some reason) done s = (s, error_response code_unauthorized reason)
unless_refused none done s = done

unfoldable pub missing_row : Row → State → State × Response
missing_row no_list s = (s, error_response code_not_found task_list_not_found)
missing_row no_task s = (s, error_response code_not_found slug_not_found)
missing_row (row tl t) s = (s, error_response code_not_found slug_not_found)

-- opTaskUnassign
unfoldable pub unassign_row : ℕ → String → String → Row → State → State × Response
unassign_row now pid slug (row tl t) s =
    let t' = record t { owner = ""; status = status_open; updated_at = now } in
    (store_task now pid slug t' tl s, ok (task_row t'))
unassign_row now pid slug r s = missing_row r s

unfoldable pub op_task_unassign : ℕ → String → String → String → State → State × Response
op_task_unassign now from slug pid s =
    if from == ""
    then (s, error_response code_error missing_from)
    else if slug == ""
    then (s, error_response code_error missing_slug)
    else if pid == ""
    then (s, error_response code_error missing_project)
    else unless_refused (require_supervisor from pid s)
        (unassign_row now pid slug (find_row pid slug s) s) s

-- opTaskReassign: the room after the change of owner
unfoldable pub drop_old_owner : String → String → Room → Room
drop_old_owner old new r =
    if not (old == "") && not (old == new)
    then record r { members = remove_name old r.members }
    else r

unfoldable pub rewire : String → Task → String → State × Room → State
rewire slug t new_owner (s, r) =
    let r' = drop_old_owner t.owner new_owner r in persist_room_members r' (set_room slug r' s)

unfoldable pub reassign_row : ℕ → String → String → String → Row → State → State × Response
unfolding rewire
reassign_row now pid slug new_owner (row tl t) s =
    let t' = record t { owner = new_owner; status = status_assigned; updated_at = now } in
    (
      rewire slug t new_owner (
          ensure_room_with_members now slug tl.supervisor (tl.supervisor ∷ new_owner ∷ [])
            (store_task now pid slug t' tl s)),
      ok (task_row t'),
    )
reassign_row now pid slug new_owner r s = missing_row r s

unfoldable pub op_task_reassign : ℕ → String → String → String → String → State → State × Response
op_task_reassign now from slug new_owner pid s =
    if from == ""
    then (s, error_response code_error missing_from)
    else if (slug == "") || (new_owner == "")
    then (s, error_response code_error missing_params)
    else if pid == ""
    then (s, error_response code_error missing_project)
    else unless_refused (require_supervisor from pid s)
        (if not (present (agent_by_name new_owner s))
          then (s, error_response code_not_found owner_not_registered)
          else reassign_row now pid slug new_owner (find_row pid slug s) s)
        s

-- opTaskStatus
unfoldable pub flip_row : ℕ → String → String → String → String → Row → State → State × Response
flip_row now pid slug from st (row tl t) s =
    let is_supervisor = tl.supervisor == from in
    let is_owner = t.owner == from in
    let t' = record t { status = st; updated_at = now } in
    if not is_supervisor && not is_owner
    then (s, error_response code_unauthorized not_your_row)
    else if not is_supervisor && not (worker_status st)
    then (s, error_response code_unauthorized status_not_allowed)
    else if not (valid_status st)
    then (s, error_response code_error invalid_status)
    else (store_task now pid slug t' tl s, ok (task_row t'))
flip_row now pid slug from st r s = missing_row r s

unfoldable pub op_task_status : ℕ → String → String → String → String → State → State × Response
op_task_status now from slug st pid s =
    if from == ""
    then (s, error_response code_error missing_from)
    else if (slug == "") || (st == "")
    then (s, error_response code_error missing_params)
    else if pid == ""
    then (s, error_response code_error missing_project)
    else flip_row now pid slug from st (find_row pid slug s) s

-- opTaskClaim
abbrev first_log : Room → Option RoomMessage
first_log r = elim r.log [ [] ↦ none | m ∷ rest ↦ some m ]

unfoldable pub claimed_task : ℕ → String → Task → Task
claimed_task now from t = record t { owner = from; status = status_in_progress; updated_at = now }

unfoldable pub claim_joined : Task → State × Room → State × Response
claim_joined t (s, r) = (persist_room_members r s, ok (task_claimed t (first_log r)))

unfoldable pub claim_row : ℕ → String → String → String → Row → State → State × Response
unfolding claimed_task claim_joined
claim_row now pid slug from (row tl t) s =
    let t' = claimed_task now from t in
    if not (t.status == status_open)
    then (s, error_response code_error not_open)
    else claim_joined t' (
        ensure_room_with_members now slug tl.supervisor (tl.supervisor ∷ from ∷ [])
          (store_task now pid slug t' tl s))
claim_row now pid slug from r s = missing_row r s

unfoldable pub op_task_claim : ℕ → String → String → String → State → State × Response
op_task_claim now from slug pid s =
    if from == ""
    then (s, error_response code_error missing_from)
    else if slug == ""
    then (s, error_response code_error missing_slug)
    else if pid == ""
    then (s, error_response code_error missing_project)
    else if role_is "supervisor" (agent_by_name from s)
    then (s, error_response code_unauthorized supervisor_cannot_claim)
    else claim_row now pid slug from (find_row pid slug s) s

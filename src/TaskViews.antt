-- ===== src/TaskViews.antt =====
-- task.go: the handlers that read task lists, and the clean-up of rooms of merged tasks.
pub mod RoomsKept
use lalia.Prelude.{
  String, Bool, true, false, not, ◌&&◌, ◌||◌, Option, none, some, List, [], ◌∷◌, ◌++◌,
  if◌then◌else◌, ltb, ◌==◌,
}
use lalia.Prelude.Dict.{Dict, get}
use lalia.Types.{Room, Task, TaskList, State}
use lalia.Response
use lalia.Response.{
  Response, ok, error_response, task_row, task_lists, bulletin, rooms_archived, code_error,
  code_not_found, code_unauthorized, missing_from, missing_project, not_registered, not_supervisor,
  task_list_not_found, slug_not_found,
}
use lalia.TaskRooms.{archive_room}
use lalia.Registry.{agent_by_name}
use lalia.Session.{status_merged}
use lalia.Task.{status_open, present, role_is, find_task}

-- The candidates of opRoomsGC: merged tasks, with a room, of the caller's lists.
unfoldable pub merged_tasks : String → List Task → State → List (String × String)
merged_tasks pid [] s = []
merged_tasks pid (t ∷ ts) s =
    let rest = merged_tasks pid ts s in
    if (t.status == status_merged) && present (get t.slug s.rooms)
    then (t.slug, pid) ∷ rest
    else rest

unfoldable pub gc_candidates : String → Dict TaskList → State → List (String × String)
unfolding merged_tasks
gc_candidates from [] s = []
gc_candidates from ((pid, tl) ∷ lists) s =
    let rest = gc_candidates from lists s in
    if tl.supervisor == from then merged_tasks pid tl.tasks s ++ rest else rest

unfoldable pub archive_each : List (String × String) → State → State × List (String × String)
archive_each [] s = (s, [])
archive_each ((slug, pid) ∷ more) s =
    let (s', flipped) = archive_room slug s in
    let (s'', archived) = archive_each more s' in
    (s'', if flipped then (slug, pid) ∷ archived else archived)

gc_rooms : State × List (String × String) → State × Response
gc_rooms (s, archived) = (s, ok (rooms_archived archived))

-- opRoomsGC
unfoldable pub op_rooms_gc : String → State → State × Response
unfolding gc_rooms gc_candidates archive_each
op_rooms_gc from s =
    if from == ""
    then (s, error_response code_error missing_from)
    else if not (present (agent_by_name from s))
    then (s, error_response code_unauthorized not_registered)
    else if not (role_is "supervisor" (agent_by_name from s))
    then (s, error_response code_unauthorized not_supervisor)
    else gc_rooms (archive_each (gc_candidates from s.tasks s) s)

-- opTaskShow
show_slug : Option Task → Response
show_slug none = error_response code_not_found slug_not_found
show_slug (some t) = ok (task_row t)

show_list : String → Option TaskList → Response
show_list slug none = error_response code_not_found task_list_not_found
show_list slug (some tl) =
    if slug == "" then ok (Response.task_list tl) else show_slug (find_task slug tl.tasks)

unfoldable pub op_task_show : String → String → State → Response
unfolding show_list show_slug
op_task_show pid slug s =
    if pid == ""
    then error_response code_error missing_project
    else show_list slug (get pid s.tasks)

-- opTaskList
abbrev owns_any : String → List Task → Bool
owns_any from [] = false
owns_any from (t ∷ ts) = if t.owner == from then true else owns_any from ts

lists_of : String → Dict TaskList → List TaskList
lists_of from [] = []
lists_of from ((pid, tl) ∷ rest) =
    if (tl.supervisor == from) || owns_any from tl.tasks
    then tl ∷ lists_of from rest
    else lists_of from rest

unfoldable pub op_task_list : String → State → Response
unfolding lists_of
op_task_list from s =
    if from == ""
    then error_response code_error missing_from
    else ok (task_lists (lists_of from s.tasks))

-- opTaskBulletin: the open tasks, each with whether its room has a message. The first line of the
-- brief is part of the task.
abbrev has_context : Option Room → Bool
has_context none = false
has_context (some r) = ltb 0 r.seq

unfoldable pub open_tasks : List Task → State → List (Task × Bool)
open_tasks [] s = []
open_tasks (t ∷ ts) s =
    let rest = open_tasks ts s in
    if t.status == status_open then (t, has_context (get t.slug s.rooms)) ∷ rest else rest

list_open : String → Option TaskList → State → Response
list_open pid none s = ok (bulletin pid [])
list_open pid (some tl) s = ok (bulletin pid (open_tasks tl.tasks s))

unfoldable pub op_task_bulletin : String → String → State → Response
unfolding list_open open_tasks
op_task_bulletin from pid s =
    if from == ""
    then error_response code_error missing_from
    else if pid == ""
    then error_response code_error missing_project
    else list_open pid (get pid s.tasks) s

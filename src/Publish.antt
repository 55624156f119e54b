-- ===== src/Publish.antt =====
-- task.go: opTaskPublish.
pub mod RoomsKept
use Prim.Native.Char.{code}
use Prim.Native.String.{◌++◌ as append}
use lalia.Prelude.{
  ℕ, String, Bool, true, false, not, ◌&&◌, ◌||◌, Option, none, some, List, [], ◌∷◌, ◌++◌,
  if◌then◌else◌, ltb, eqb, ◌==◌, contains, keep,
}
use lalia.Prelude.Dict.{get}
use lalia.Types.{Contract, Room, Agent, Task, TaskList, State}
use lalia.Response.{
  Response, ok, error_response, Reason, published, code_error, code_unauthorized,
  code_project_identity_mismatch, missing_from, missing_project, missing_repo_root, bad_repo_root,
  missing_workstreams, repo_root_not_found, bad_workstream, duplicate_slug, not_registered,
  not_supervisor, project_mismatch, repo_root_mismatch, not_project_supervisor,
}
use lalia.Room.{persist_room_definition, persist_room_members}
use lalia.TaskRooms.{ensure_room_with_members, unarchive_room, internal_post}
use lalia.Registry.{agent_by_name}
use lalia.Task.{status_open, find_task, set_task, persist_task_list, set_tasks}
use lalia.Worktree.{Git, ensure_worktree}

-- wsInput
pub record WsInput : Type 0 where
  pub slug : String
  pub branch : String
  pub brief : String
  pub owned_paths : List String
  pub contracts : List Contract

-- The loop over the payload; `none` stands for an entry that is no object. The paths and the
-- contracts without a text are left out.
unfoldable pub parse_ws : WsInput → WsInput
parse_ws w = record w {
  owned_paths = keep (λ p. not (p == "")) w.owned_paths;
  contracts = keep (λ (c : Contract). not (c.other_slug == "")) w.contracts;
}

pub data Parsed : Type 0 where
  bad : Reason → Parsed
  good : List WsInput → Parsed

add_ws : WsInput → Parsed → Parsed
add_ws w (bad e) = bad e
add_ws w (good ws) = good (parse_ws w ∷ ws)

unfoldable pub parse_all : List String → List (Option WsInput) → Parsed
unfolding add_ws
parse_all seen [] = good []
parse_all seen (none ∷ raw) = bad bad_workstream
parse_all seen (some w ∷ raw) =
    let rest = parse_all (w.slug ∷ seen) raw in
    if (w.slug == "") || (w.branch == "")
    then bad bad_workstream
    else if contains w.slug seen
    then bad duplicate_slug
    else add_ws w rest

-- strings.TrimRight(brief, "\n")
trim_newlines : String → String
trim_newlines String.[] = String.[]
trim_newlines (String.◌∷◌ c s) =
    let rest = trim_newlines s in
    if (rest == "") && eqb (code c) 10 then String.[] else String.◌∷◌ c rest

path_lines : List String → String
path_lines [] = ""
path_lines (p ∷ ps) = append "- " (append p (append "\n" (path_lines ps)))

contract_lines : List Contract → String
contract_lines [] = ""
contract_lines (c ∷ cs) =
    append "- "
      (append c.other_slug (append ": " (append c.note (append "\n" (contract_lines cs)))))

abbrev has_any {ℓ} : {A : Type ℓ} → List A → Bool
has_any [] = false
has_any (x ∷ xs) = true

-- composeBundle
unfoldable pub compose_bundle : String → List String → List Contract → String
unfolding trim_newlines path_lines contract_lines
compose_bundle brief owned contracts = append (trim_newlines brief) (
    append "\n" (
      append (if has_any owned || has_any contracts then "\n---\n\n" else "") (
        append (if has_any owned then append "**Owned paths**\n" (path_lines owned) else "") (
          if has_any contracts
          then append (if has_any owned then "\n" else "")
              (append "**Contracts**\n" (contract_lines contracts))
          else ""))))

-- `p, _ := filepath.Abs(…)`
abbrev or_empty : Option String → String
or_empty none = ""
or_empty (some p) = p

-- The caller's checks under s.mu; `abs` is filepath.Abs, with the empty path for its error.
abbrev owned_by_other : String → Option TaskList → Bool
owned_by_other from none = false
owned_by_other from (some tl) = not (tl.supervisor == "") && not (tl.supervisor == from)

check_agent :
    (String → String) → String → String → String → Option Agent → State → Option (ℕ × Reason)
check_agent abs from pid abs_root none s = some (code_unauthorized, not_registered)
check_agent abs from pid abs_root (some a) s =
    if not (a.role == "supervisor")
    then some (code_unauthorized, not_supervisor)
    else if not (a.project == "") && not (a.project == pid)
    then some (code_project_identity_mismatch, project_mismatch)
    else if not (a.repo_root == "") && not (abs a.repo_root == abs_root)
    then some (code_project_identity_mismatch, repo_root_mismatch)
    else if owned_by_other from (get pid s.tasks)
    then some (code_unauthorized, not_project_supervisor)
    else none

unfoldable pub check_publisher :
    (String → String) → String → String → String → State → Option (ℕ × Reason)
unfolding check_agent
check_publisher abs from pid abs_root s = check_agent abs from pid abs_root (agent_by_name from s) s

-- The list of the project, made or completed.
list_for : String → String → String → Option TaskList → TaskList
list_for pid from root none = record {
  project_id = pid;
  supervisor = from;
  repo_root = root;
  tasks = [];
  updated_at = 0;
}
list_for pid from root (some tl) = record tl {
  supervisor = if tl.supervisor == "" then from else tl.supervisor;
  repo_root = if tl.repo_root == "" then root else tl.repo_root;
}

-- The row of a slug, made or overwritten in place. A status that is set stays.
unfoldable pub publish_task : ℕ → String → WsInput → List Task → Option Task → List Task
publish_task now target w tasks none =
    tasks
    ++ (record {
      slug = w.slug;
      branch = w.branch;
      brief = w.brief;
      owned_paths = w.owned_paths;
      contracts = w.contracts;
      worktree = target;
      owner = "";
      status = status_open;
      updated_at = now;
    }
        ∷ [])
publish_task now target w tasks (some t) =
    set_task w.slug
      (record t {
        branch = w.branch;
        brief = w.brief;
        owned_paths = w.owned_paths;
        contracts = w.contracts;
        worktree = target;
        status = if t.status == "" then status_open else t.status;
        updated_at = now;
      })
      tasks

abbrev already_open : WsInput → Option Task → Bool
already_open w none = false
already_open w (some t) = (t.status == status_open) && (t.branch == w.branch)

unfoldable pub publish_row : ℕ → String → String → String → String → WsInput → State → State × Bool
unfolding list_for publish_task set_tasks
publish_row now from pid root target w s =
    let tl = list_for pid from root (get pid s.tasks) in
    let old = find_task w.slug tl.tasks in
    let tl' = record tl { tasks = publish_task now target w tl.tasks old; updated_at = now } in
    (persist_task_list tl' (set_tasks pid tl' s), already_open w old)

-- After ensureRoomWithMembers: the room is opened again and written, and the bundle is posted
-- unless the publish repeats an earlier one. The room that is posted to is the one in the map.
post_bundle : ℕ → String → Bool → WsInput → Option Room → State → State × Bool
unfolding compose_bundle
post_bundle now from repeated w none s = (s, false)
post_bundle now from repeated w (some r) s =
    let s' = persist_room_members r (persist_room_definition r s) in
    if repeated && ltb 0 r.seq then (s', true) else (
      internal_post now w.slug from (compose_bundle w.brief w.owned_paths w.contracts) r s',
      false,
    )

publish_room : ℕ → String → WsInput → Bool → State × Bool → State × Bool
unfolding post_bundle
publish_room now from w created (s, was_open) =
    let s1 = (ensure_room_with_members now w.slug from (from ∷ []) s).0 in
    let s2 = (unarchive_room w.slug s1).0 in
    post_bundle now from (not created && was_open) w (get w.slug s2.rooms) s2

publish_created :
    ℕ → String → String → String → String → WsInput → Option Bool → State → State × Option Bool
unfolding publish_room
publish_created now from pid root target w none s = (s, none)
publish_created now from pid root target w (some created) s =
    let (s', noop) = publish_room now from w created (publish_row now from pid root target w s) in
    (s', some noop)

-- `git` is what the repository and the file system are when the turn of a slug comes, and `target`
-- the path of its worktree.
module _ (git : String → Git) (target : String → String) where
  -- One turn of the loop over the workstreams: whether it was a no-op, or `none` for a failure.
  unfoldable pub publish_one : ℕ → String → String → String → WsInput → State → State × Option Bool
  unfolding publish_created
  publish_one now from pid root w s =
      publish_created now from pid root (target w.slug) w
        (ensure_worktree (git w.slug) (target w.slug) w.branch) s

  note_result :
      String
      → Option Bool
      → State × List (String × Bool) × List String
      → State × List (String × Bool) × List String
  note_result slug none (s, done, failed) = (s, done, slug ∷ failed)
  note_result slug (some noop) (s, done, failed) = (s, (slug, noop) ∷ done, failed)

  unfoldable pub publish_all :
      ℕ
      → String
      → String
      → String
      → List WsInput
      → State
      → State × List (String × Bool) × List String
  unfolding note_result
  publish_all now from pid root [] s = (s, [], [])
  publish_all now from pid root (w ∷ ws) s =
      let (s', result) = publish_one now from pid root w s in
      note_result w.slug result (publish_all now from pid root ws s')

  publish_checked :
      (String → String) → ℕ → String → String → String → Parsed → State → State × Response
  publish_checked abs now from pid root (bad reason) s = (s, error_response code_error reason)
  publish_checked abs now from pid root (good ws) s = elim (check_publisher abs from pid root s) [
    | some (code, reason) ↦ (s, error_response code reason)
    | none ↦
        let (s', done, failed) = publish_all now from pid root ws s in
        (s', ok (published pid done failed))
  ]

  -- The checks of opTaskPublish from the absolute root on
  publish_rooted :
      (String → Option String)
      → Bool
      → ℕ
      → String
      → String
      → List (Option WsInput)
      → Option String
      → State
      → State × Response
  unfolding publish_checked
  publish_rooted abs root_is_dir now from pid raw none s =
      (s, error_response code_error bad_repo_root)
  publish_rooted abs root_is_dir now from pid raw (some root) s =
      if not root_is_dir
      then (s, error_response code_error repo_root_not_found)
      else publish_checked (λ p. or_empty (abs p)) now from pid root (parse_all [] raw) s

  -- opTaskPublish; `abs` is filepath.Abs, and `root_is_dir` is os.Stat of the absolute root
  unfoldable pub op_task_publish :
      (String → Option String)
      → Bool
      → ℕ
      → String
      → String
      → String
      → List (Option WsInput)
      → State
      → State × Response
  unfolding publish_rooted
  op_task_publish abs root_is_dir now from pid repo_root raw s =
      if from == ""
      then (s, error_response code_error missing_from)
      else if pid == ""
      then (s, error_response code_error missing_project)
      else if repo_root == ""
      then (s, error_response code_error missing_repo_root)
      else if not (has_any raw)
      then (s, error_response code_error missing_workstreams)
      else publish_rooted abs root_is_dir now from pid raw (abs repo_root) s

-- ===== src/Response.antt =====
-- protocol.go: responses and their codes. The texts of a message and of a hint, and the context
-- map, are not modelled: an error is its code and its reason.
use lalia.Prelude.{ℕ, String, Bool, Option, List, eqb, if◌then◌else◌}
use lalia.Types.{Message, RoomMessage, Kind, Agent, Task, TaskList}

abbrev pub code_error : ℕ
code_error = 1

abbrev pub code_timeout : ℕ
code_timeout = 2

abbrev pub code_peer_closed : ℕ
code_peer_closed = 3

abbrev pub code_not_found : ℕ
code_not_found = 5

abbrev pub code_unauthorized : ℕ
code_unauthorized = 6

abbrev pub code_supervisor_busy : ℕ
code_supervisor_busy = 7

abbrev pub code_project_identity_mismatch : ℕ
code_project_identity_mismatch = 8

abbrev pub code_pid_conflict : ℕ
code_pid_conflict = 9

abbrev pub code_session_conflict : ℕ
code_session_conflict = 10

-- The reasons that the handlers give, each spelled as in the source.
pub data Reason : Type 0 where
  missing_from missing_params missing_name missing_slug missing_project missing_to : Reason
  missing_target ambiguous_target missing_pubkey signature_rejected unknown_op : Reason
  invalid_room_name room_already_exists room_not_found room_archived : Reason
  room_read_already_pending read_any_already_pending channel_not_participant : Reason
  channel_not_found self_target caller_not_registered peer_not_registered timeout : Reason
  peer_closed read_failed not_registered supervisor_busy pid_in_use session_conflict : Reason
  keygen_failed not_supervisor not_project_supervisor supervisor_cannot_claim : Reason
  task_list_not_found slug_not_found not_open not_your_row status_not_allowed : Reason
  invalid_status owner_not_registered agent_not_found unpublish_needs_force : Reason
  worktree_not_clean owner_lease_live missing_repo_root bad_repo_root missing_workstreams : Reason
  bad_workstream duplicate_slug project_mismatch repo_root_mismatch repo_root_not_found : Reason
  missing_address address_not_found : Reason

-- One entry of `messages` in a room's answer: the notice, or a message.
pub data RoomEntry : Type 0 where
  notice : ℕ → RoomEntry
  message : RoomMessage → RoomEntry

-- One row of `rooms`: name, desc, members, messages, archived, created_by and created_at.
pub record RoomRow : Type 0 where
  pub name : String
  pub desc : String
  pub members : ℕ
  pub messages : ℕ
  pub archived : Bool
  pub created_by : String
  pub created_at : ℕ

-- One row of `agents`: the agent, `qualified`, and `live`, which `lease_status` spells out.
pub record AgentRow : Type 0 where
  pub agent : Agent
  pub qualified : String
  pub live : Bool

-- `worktree_removed`, `worktree_preserved` and `worktree_remove_error` of an answer: the worktree
-- stays by default, there is none to remove, it is removed, or git failed to remove it.
pub data Removal : Type 0 where
  preserved_default nothing_to_remove worktree_removed remove_failed : Removal

-- The `data` of the responses that succeed, by handler.
pub data Payload : Type 0 where
  no_data : Payload
  room_created : String → String → String → Payload
  room_member : String → String → Payload
  participants : String → List (String × ℕ × ℕ) → Payload
  room_posted : String → ℕ → Payload
  room_entries : String → List RoomEntry → Payload
  room_peeked : String → List RoomMessage → ℕ → Payload
  room_log : String → List RoomMessage → Payload
  told : ℕ → String → Payload
  peer_message : Message → Payload
  peer_messages : String → List Message → Payload
  any_message : Kind → String → Message → Payload
  registered : String → String → ℕ → String → String → Payload
  named : String → Payload
  renewed : ℕ → Payload
  channel_rows : List (String × ℕ × ℕ) → Payload
  task_row : Task → Payload
  task_claimed : Task → Option RoomMessage → Payload
  task_list : TaskList → Payload
  task_lists : List TaskList → Payload
  bulletin : String → List (Task × Bool) → Payload
  rooms_archived : List (String × String) → Payload
  handed_off : String → String → Payload
  published : String → List (String × Bool) → List String → Payload
  unpublished : String → Bool → Removal → Payload
  agent_rows : List AgentRow → Payload
  room_rows : List RoomRow → Payload
  agent_resolved : String → Payload

-- `Code` is CodeOK, 0, exactly in the first.
pub data Response : Type 0 where
  ok : Payload → Response
  err : ℕ → Reason → Response

unfoldable pub error_response : ℕ → Reason → Response
error_response code reason = err (if eqb code 0 then code_error else code) reason

-- A handler's outcome: it has answered, or its goroutine waits on a Go channel.
pub data Outcome : Type 0 where
  answered : Response → Outcome
  blocked : ℕ → Outcome

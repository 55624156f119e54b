-- ===== src/Dispatch.antt =====
-- state.go: dispatch. A request is decoded, its caller authenticated and its lease renewed, and the
-- handler of its operation answers.
pub mod Decode
pub mod Gate
pub mod Rooms
pub mod Daemon
use lalia.Prelude.{ℕ, String, Bool, not, ◌&&◌, ◌||◌, Option, none, some, ◌==◌, if◌then◌else◌}
use lalia.Prelude.Dict.{Dict}
use lalia.Types.{Agent, State}
use lalia.Response.{
  Response, error_response, Outcome, answered, code_error, code_unauthorized, not_registered,
  missing_pubkey, signature_rejected, unknown_op,
}
use lalia.Signing.{Json, Crypto, Refusal, text_arg, verify_request}
use lalia.Registry.{Nickname, agent_by_name, renew_lease}
use lalia.Session.{op_register, op_unregister, op_renew}
use lalia.Rooms.{op_room_create, op_join, op_leave, op_participants, op_post}
use lalia.Messaging.{op_tell, op_read, op_peek, op_read_any, op_history, op_channels}
use lalia.Task.{op_task_unassign, op_task_reassign, op_task_status, op_task_claim}
use lalia.Supervision.{op_task_handoff, op_task_unpublish}
use lalia.TaskViews.{op_rooms_gc, op_task_show, op_task_list, op_task_bulletin}
use lalia.Worktree.{Git}
use lalia.Publish.{op_task_publish}
use lalia.Views.{op_agents, op_resolve, op_rooms}
use lalia.Shutdown.{op_stop}
use lalia.Dispatch.Decode.{number_arg, flag_arg, agent_info, workstreams}

-- What a request meets outside the state: the clock, a fresh id, the key store, the nicknames of
-- the user, the packages ulid and crypto, and for the task operations the file system and git.
pub record World : Type 0 where
  pub now : ℕ
  pub fresh_id : String
  pub ensure_key : String → Option String
  pub nicknames : Dict Nickname
  pub is_ulid : String → Bool
  pub crypto : Crypto
  pub abs : String → Option String
  pub root_is_dir : Bool
  pub git : String → Git
  pub target : String → String
  pub is_clean : Bool
  pub is_removed : Bool

-- The operations that need no signature
unfoldable pub is_open : String → Bool
is_open op = (op == "register") || (op == "stop") || (op == "agents") || (op == "resolve")

unfoldable pub check_signature : Option Refusal → Option Response
check_signature none = none
check_signature (some e) = some (error_response code_unauthorized signature_rejected)

unfoldable pub check_caller : Crypto → Dict Json → Option Agent → Option Response
check_caller c args none = some (error_response code_unauthorized not_registered)
check_caller c args (some a) =
    if a.pubkey == ""
    then some (error_response code_unauthorized missing_pubkey)
    else check_signature (verify_request c a.pubkey args)

-- The first part of dispatch: the answer to a request that is not authentic
unfoldable pub authenticate : Crypto → String → Dict Json → State → Option Response
unfolding check_caller check_signature
authenticate c op args s =
    if not (is_open op) && not (text_arg "from" args == "")
    then check_caller c args (agent_by_name (text_arg "from" args) s)
    else none

pure : State → Response → State × Outcome
pure s r = (s, answered r)

done : State × Response → State × Outcome
done (s, r) = (s, answered r)

module _ (w : World) where
  -- The operations on sessions and on the lists of what there is
  handle_session : String → Dict Json → State → Option (State × Outcome)
  handle_session op args s =
      let from = text_arg "from" args in
      if op == "register"
      then some (
          done (
            op_register w.now w.fresh_id (w.ensure_key (text_arg "name" args))
              (text_arg "name" args) (number_arg "pid" args) (agent_info args) s))
      else if op == "unregister"
      then some (done (op_unregister from s))
      else if op == "agents"
      then some (pure s (op_agents w.now s))
      else if op == "resolve"
      then some (pure s (op_resolve w.is_ulid w.nicknames (text_arg "address" args) s))
      else if op == "renew"
      then some (done (op_renew w.now from s))
      else if op == "stop"
      then some (pure s (op_stop s))
      else none

  -- The operations on rooms and on messages
  handle_room : String → Dict Json → State → Option (State × Outcome)
  handle_room op args s =
      let from = text_arg "from" args in
      let room = text_arg "room" args in
      let peer = text_arg "peer" args in
      let body = text_arg "body" args in
      if op == "rooms"
      then some (pure s (op_rooms from s))
      else if op == "rooms_gc"
      then some (done (op_rooms_gc from s))
      else if op == "room_create"
      then some (done (op_room_create w.now from (text_arg "name" args) (text_arg "desc" args) s))
      else if op == "join"
      then some (done (op_join from room s))
      else if op == "leave"
      then some (done (op_leave from room s))
      else if op == "participants"
      then some (pure s (op_participants from room s))
      else if op == "post"
      then some (done (op_post w.now from room body s))
      else if op == "tell"
      then some (done (op_tell w.is_ulid w.nicknames w.now from peer body s))
      else if op == "read"
      then some (op_read w.is_ulid w.nicknames from peer room (number_arg "timeout" args) s)
      else if op == "peek"
      then some (pure s (op_peek w.is_ulid w.nicknames from peer room s))
      else if op == "read-any"
      then some (op_read_any from s)
      else if op == "history"
      then some
          (pure s (op_history from peer room (number_arg "since" args) (number_arg "limit" args) s))
      else if op == "channels"
      then some (pure s (op_channels from s))
      else none

  -- The operations on tasks
  handle_task : String → Dict Json → State → Option (State × Outcome)
  handle_task op args s =
      let from = text_arg "from" args in
      let pid = text_arg "project" args in
      let slug = text_arg "slug" args in
      if op == "task_publish"
      then some (
          done (
            op_task_publish w.git w.target w.abs w.root_is_dir w.now from pid
              (text_arg "repo_root" args) (workstreams args) s))
      else if op == "task_unassign"
      then some (done (op_task_unassign w.now from slug pid s))
      else if op == "task_status"
      then some (done (op_task_status w.now from slug (text_arg "status" args) pid s))
      else if op == "task_claim"
      then some (done (op_task_claim w.now from slug pid s))
      else if op == "task_show"
      then some (pure s (op_task_show pid slug s))
      else if op == "task_list"
      then some (pure s (op_task_list from s))
      else if op == "task_bulletin"
      then some (pure s (op_task_bulletin from pid s))
      else if op == "task_reassign"
      then some (done (op_task_reassign w.now from slug (text_arg "owner" args) pid s))
      else if op == "task_unpublish"
      then some (
          done (
            op_task_unpublish (flag_arg "force" args) (flag_arg "wipe_worktree" args)
              (flag_arg "evict_owner" args) w.is_clean w.is_removed w.now from slug pid s))
      else if op == "task_handoff"
      then some (done (op_task_handoff w.now from (text_arg "to" args) pid s))
      else none

  or_else : Option (State × Outcome) → State × Outcome → State × Outcome
  or_else (some r) other = r
  or_else none other = other

  -- The `switch` of dispatch, in three parts; the operations' names differ
  unfoldable pub handle : String → Dict Json → State → State × Outcome
  unfolding handle_session handle_room handle_task or_else pure done
  handle op args s = or_else (handle_session op args s) (
      or_else (handle_room op args s)
        (or_else (handle_task op args s) (s, answered (error_response code_error unknown_op))))

  -- The lease renewal of dispatch
  unfoldable pub renew_caller : Dict Json → State → State
  renew_caller args s =
      if text_arg "from" args == "" then s else renew_lease w.now (text_arg "from" args) s

  unfoldable pub unless_rejected : Option Response → String → Dict Json → State → State × Outcome
  unless_rejected (some r) op args s = (s, answered r)
  unless_rejected none op args s = handle op args (renew_caller args s)

  unfoldable pub dispatch : String → Dict Json → State → State × Outcome
  unfolding unless_rejected
  dispatch op args s = unless_rejected (authenticate w.crypto op args s) op args s

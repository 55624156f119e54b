-- ===== src/Dispatch/Rooms.antt =====
-- state.go: every request keeps every room valid.
use lalia.Prelude.{String, Option, none, some, if_both, ◌==◌}
use lalia.Prelude.Dict.{Dict}
use lalia.Types.{State}
use lalia.Response.{Response, Outcome}
use lalia.Signing.{Json, text_arg}
use lalia.Rooms.Valid.{
  RoomsValid, KeepsRooms, op_room_create-KeepsRooms, op_join-KeepsRooms, op_leave-KeepsRooms,
  op_post-KeepsRooms,
}
use lalia.Messaging.RoomsKept.{op_tell-KeepsRooms, op_read-KeepsRooms, op_read_any-KeepsRooms}
use lalia.Session.RoomsKept.{
  renew_lease-RoomsValid, op_register-KeepsRooms, op_unregister-KeepsRooms, op_renew-KeepsRooms,
}
use lalia.Task.RoomsKept.{
  op_task_unassign-KeepsRooms, op_task_reassign-KeepsRooms, op_task_status-KeepsRooms,
  op_task_claim-KeepsRooms,
}
use lalia.Supervision.RoomsKept.{op_task_handoff-KeepsRooms, op_task_unpublish-KeepsRooms}
use lalia.TaskViews.RoomsKept.{op_rooms_gc-KeepsRooms}
use lalia.Publish.RoomsKept.{op_task_publish-KeepsRooms}
use lalia.Dispatch.{
  World, pure, done, handle_session, handle_room, handle_task, or_else, handle, renew_caller,
  unless_rejected, authenticate, dispatch,
}
use lalia.Dispatch.Decode.{number_arg, flag_arg, agent_info, workstreams}

done-KeepsRooms : (o : State × Response) → KeepsRooms o → KeepsRooms (done o)
unfolding done
done-KeepsRooms (s, r) v = v

-- A part of the table that has an operation keeps the rooms valid.
Kept : Option (State × Outcome) → Type 0
Kept none = Unit
Kept (some o) = KeepsRooms o

module _ (w : World) (args : Dict Json) (s : State) (v : RoomsValid s.rooms) where
  handle_session-Kept : (op : String) → Kept (handle_session w op args s)
  unfolding handle_session Kept pure
  handle_session-Kept op =
      let from = text_arg "from" args in
      if_both Kept (op == "register")
        (done-KeepsRooms _ (
          op_register-KeepsRooms s v w.now w.fresh_id (w.ensure_key (text_arg "name" args))
            (text_arg "name" args) (number_arg "pid" args) (agent_info args)))
        (if_both Kept (op == "unregister") (done-KeepsRooms _ (op_unregister-KeepsRooms s v from)) (
          if_both Kept (op == "agents") v (
            if_both Kept (op == "resolve") v (
              if_both Kept (op == "renew") (done-KeepsRooms _ (op_renew-KeepsRooms s v w.now from))
                (if_both Kept (op == "stop") v tt)))))

  handle_room-Kept : (op : String) → Kept (handle_room w op args s)
  unfolding handle_room Kept pure
  handle_room-Kept op =
      let from = text_arg "from" args in
      let room = text_arg "room" args in
      let peer = text_arg "peer" args in
      let body = text_arg "body" args in
      if_both Kept (op == "rooms") v (
        if_both Kept (op == "rooms_gc") (done-KeepsRooms _ (op_rooms_gc-KeepsRooms from s v)) (
          if_both Kept (op == "room_create")
            (done-KeepsRooms _ (
              op_room_create-KeepsRooms s v w.now from (text_arg "name" args)
                (text_arg "desc" args)))
            (if_both Kept (op == "join") (done-KeepsRooms _ (op_join-KeepsRooms s v from room)) (
              if_both Kept (op == "leave") (done-KeepsRooms _ (op_leave-KeepsRooms s v from room)) (
                if_both Kept (op == "participants") v (
                  if_both Kept (op == "post")
                    (done-KeepsRooms _ (op_post-KeepsRooms s v w.now from room body))
                    (if_both Kept (op == "tell")
                      (done-KeepsRooms _
                        (op_tell-KeepsRooms s v w.is_ulid w.nicknames w.now from peer body))
                      (if_both Kept (op == "read")
                        (op_read-KeepsRooms s v w.is_ulid w.nicknames from peer room
                          (number_arg "timeout" args))
                        (if_both Kept (op == "peek") v (
                          if_both Kept (op == "read-any") (op_read_any-KeepsRooms s v from) (
                            if_both Kept (op == "history") v
                              (if_both Kept (op == "channels") v tt))))))))))))

  handle_task-Kept : (op : String) → Kept (handle_task w op args s)
  unfolding handle_task Kept pure
  handle_task-Kept op =
      let from = text_arg "from" args in
      let pid = text_arg "project" args in
      let slug = text_arg "slug" args in
      if_both Kept (op == "task_publish")
        (done-KeepsRooms _ (
          op_task_publish-KeepsRooms w.git w.target w.abs w.root_is_dir w.now from pid
            (text_arg "repo_root" args) (workstreams args) s v))
        (if_both Kept (op == "task_unassign")
          (done-KeepsRooms _ (op_task_unassign-KeepsRooms s v w.now from slug pid))
          (if_both Kept (op == "task_status")
            (done-KeepsRooms _
              (op_task_status-KeepsRooms s v w.now from slug (text_arg "status" args) pid))
            (if_both Kept (op == "task_claim")
              (done-KeepsRooms _ (op_task_claim-KeepsRooms s v w.now from slug pid))
              (if_both Kept (op == "task_show") v (
                if_both Kept (op == "task_list") v (
                  if_both Kept (op == "task_bulletin") v (
                    if_both Kept (op == "task_reassign")
                      (done-KeepsRooms _ (
                        op_task_reassign-KeepsRooms s v w.now from slug (text_arg "owner" args)
                          pid))
                      (if_both Kept (op == "task_unpublish")
                        (done-KeepsRooms _ (
                          op_task_unpublish-KeepsRooms s v (flag_arg "force" args)
                            (flag_arg "wipe_worktree" args) (flag_arg "evict_owner" args) w.is_clean
                            w.is_removed w.now from slug pid))
                        (if_both Kept (op == "task_handoff")
                          (done-KeepsRooms _
                            (op_task_handoff-KeepsRooms s v w.now from (text_arg "to" args) pid))
                          tt)))))))))

  or_else-Kept :
      (o : Option (State × Outcome)) (other : State × Outcome)
      → Kept o
      → KeepsRooms other
      → KeepsRooms (or_else w o other)
  unfolding or_else Kept
  or_else-Kept (some r) other k v = k
  or_else-Kept none other k v = v

  handle-KeepsRooms : (op : String) → KeepsRooms (handle w op args s)
  unfolding handle
  handle-KeepsRooms op = or_else-Kept (handle_session w op args s) _ (handle_session-Kept op) (
      or_else-Kept (handle_room w op args s) _ (handle_room-Kept op)
        (or_else-Kept (handle_task w op args s) _ (handle_task-Kept op) v))

renew_caller-RoomsValid :
    (w : World) (args : Dict Json) (s : State)
    → RoomsValid s.rooms
    → RoomsValid (renew_caller w args s).rooms
unfolding renew_caller
renew_caller-RoomsValid w args s v =
    if_both (λ (x : State). RoomsValid x.rooms) (text_arg "from" args == "") v
      (renew_lease-RoomsValid w.now (text_arg "from" args) s v)

unless_rejected-KeepsRooms :
    (w : World) (o : Option Response) (op : String) (args : Dict Json) (s : State)
    → RoomsValid s.rooms
    → KeepsRooms (unless_rejected w o op args s)
unfolding unless_rejected
unless_rejected-KeepsRooms w (some r) op args s v = v
unless_rejected-KeepsRooms w none op args s v =
    handle-KeepsRooms w args (renew_caller w args s) (renew_caller-RoomsValid w args s v) op

pub dispatch-KeepsRooms :
    (w : World) (op : String) (args : Dict Json) (s : State)
    → RoomsValid s.rooms
    → KeepsRooms (dispatch w op args s)
unfolding dispatch
dispatch-KeepsRooms w op args s v =
    unless_rejected-KeepsRooms w (authenticate w.crypto op args s) op args s v

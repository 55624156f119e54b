-- ===== src/Supervision/RoomsKept.antt =====
-- task.go: opTaskHandoff and opTaskUnpublish keep every room valid.
use lalia.Prelude.{
  ℕ, ◌≡◌, refl, String, Bool, not, ◌||◌, ◌&&◌, Option, none, some, List, [], ◌∷◌, ltb,
  add_name-Distinct, remove_name-Distinct, if_both, ◌==◌,
}
use lalia.Prelude.Dict.{get}
use lalia.Response.{Removal}
use lalia.Types.{Room, TaskList, State}
use lalia.Rooms.Valid.{RoomsValid, room_at, KeepsRooms}
use lalia.TaskRooms.{archive_room}
use lalia.TaskRooms.Valid.{
  Fits, members-RoomIsValid, archive_room-KeepsRooms, stored_room-RoomsValid,
}
use lalia.Registry.{agent_by_name}
use lalia.Task.{role_is, present, require_supervisor, Row, row, no_list, no_task, find_row}
use lalia.Task.RoomsKept.{
  rooms-persist_task_list, rooms-set_tasks, unless_refused-KeepsRooms, missing_row-KeepsRooms,
}
use lalia.Supervision.{
  active_slugs, hand_room, hand_found, hand_rooms, hand_list, op_task_handoff, log_length, is_live,
  drop_row, removal, retract, unpublish_row, op_task_unpublish,
}

hand_room-Fits : (from to slug : String) (r : Room) → Fits slug r → Fits slug (hand_room from to r)
unfolding hand_room
hand_room-Fits from to slug r (w, n) = (
  members-RoomIsValid _ r (remove_name-Distinct from _ (add_name-Distinct to r.members w.distinct))
      w,
  n,
)

hand_found-RoomsValid :
    (from to slug : String) (o : Option Room) (s : State)
    → RoomsValid s.rooms
    → get slug s.rooms ≡ o
    → RoomsValid (hand_found from to slug o s).rooms
unfolding hand_found
hand_found-RoomsValid from to slug none s v e = v
hand_found-RoomsValid from to slug (some r) s v e =
    stored_room-RoomsValid slug (hand_room from to r) s v
      (hand_room-Fits from to slug r (room_at s.rooms v slug r e))

hand_rooms-RoomsValid :
    (from to : String) (slugs : List String) (s : State)
    → RoomsValid s.rooms
    → RoomsValid (hand_rooms from to slugs s).rooms
unfolding hand_rooms
hand_rooms-RoomsValid from to [] s v = v
hand_rooms-RoomsValid from to (slug ∷ slugs) s v =
    hand_rooms-RoomsValid from to slugs _
      (hand_found-RoomsValid from to slug (get slug s.rooms) s v refl)

drop_row-RoomsValid :
    (now : ℕ) (pid slug : String) (o : Option TaskList) (s : State)
    → RoomsValid s.rooms
    → RoomsValid (drop_row now pid slug o s).rooms
unfolding drop_row
drop_row-RoomsValid now pid slug none s v = v
drop_row-RoomsValid now pid slug (some tl) s v = simp (rooms-persist_task_list, rooms-set_tasks) v

module _ (s : State) (v : RoomsValid s.rooms) where
  hand_list-KeepsRooms :
      (now : ℕ) (from to pid : String) (o : Option TaskList)
      → KeepsRooms (hand_list now from to pid o s)
  unfolding hand_list
  hand_list-KeepsRooms now from to pid none = v
  hand_list-KeepsRooms now from to pid (some tl) =
      hand_rooms-RoomsValid from to (active_slugs tl.tasks) _
        (simp (rooms-persist_task_list, rooms-set_tasks) v)

  pub op_task_handoff-KeepsRooms :
      (now : ℕ) (from to pid : String) → KeepsRooms (op_task_handoff now from to pid s)
  unfolding op_task_handoff
  op_task_handoff-KeepsRooms now from to pid = if_both KeepsRooms (from == "") v (
      if_both KeepsRooms (to == "") v (
        if_both KeepsRooms (pid == "") v (
          unless_refused-KeepsRooms (require_supervisor from pid s) _ s v (
            if_both KeepsRooms (not (present (agent_by_name to s))) v (
              if_both KeepsRooms (not (role_is "supervisor" (agent_by_name to s))) v
                (hand_list-KeepsRooms now from to pid (get pid s.tasks)))))))

  retract-KeepsRooms :
      (now : ℕ) (pid slug : String) (has_room : Bool) (removed : Removal)
      → KeepsRooms (retract now pid slug has_room removed s)
  unfolding retract
  retract-KeepsRooms now pid slug has_room removed =
      drop_row-RoomsValid now pid slug (get pid (archive_room slug s).0.tasks)
        (archive_room slug s).0 (archive_room-KeepsRooms slug s v)

  module _ (force wipe evict is_clean is_removed : Bool) where
    unpublish_row-KeepsRooms :
        (now : ℕ) (pid slug : String) (r : Row)
        → KeepsRooms (unpublish_row force wipe evict is_clean is_removed now pid slug r s)
    unfolding unpublish_row
    unpublish_row-KeepsRooms now pid slug (row tl t) =
        let has_owner = not (t.owner == "") in
        let has_worktree = not (t.worktree == "") in
        if_both KeepsRooms ((has_owner || ltb 1 (log_length (get slug s.rooms))) && not force) v (
          if_both KeepsRooms (wipe && (has_worktree && not is_clean)) v (
            if_both KeepsRooms
              (wipe
                && (has_worktree
                    && (has_owner && (is_live now (agent_by_name t.owner s) && not evict))))
              v
              (retract-KeepsRooms now pid slug (present (get slug s.rooms))
                (removal wipe (has_worktree && not (tl.repo_root == "")) is_removed))))
    unpublish_row-KeepsRooms now pid slug no_list = missing_row-KeepsRooms no_list s v
    unpublish_row-KeepsRooms now pid slug no_task = missing_row-KeepsRooms no_task s v

    pub op_task_unpublish-KeepsRooms :
        (now : ℕ) (from slug pid : String)
        → KeepsRooms (op_task_unpublish force wipe evict is_clean is_removed now from slug pid s)
    unfolding op_task_unpublish
    op_task_unpublish-KeepsRooms now from slug pid = if_both KeepsRooms (from == "") v (
        if_both KeepsRooms (slug == "") v (
          if_both KeepsRooms (pid == "") v (
            unless_refused-KeepsRooms (require_supervisor from pid s) _ s v
              (unpublish_row-KeepsRooms now pid slug (find_row pid slug s)))))

-- ===== src/TaskViews/RoomsKept.antt =====
-- task.go: opRoomsGC keeps every room valid.
use lalia.Prelude.{String, not, List, [], ◌∷◌, if_both, ◌==◌}
use lalia.Types.{State}
use lalia.Rooms.Valid.{RoomsValid, KeepsRooms}
use lalia.TaskRooms.{archive_room}
use lalia.TaskRooms.Valid.{archive_room-KeepsRooms}
use lalia.Registry.{agent_by_name}
use lalia.Task.{role_is, present}
use lalia.TaskViews.{gc_candidates, archive_each, gc_rooms, op_rooms_gc}

archive_each-KeepsRooms :
    (slugs : List (String × String)) (s : State)
    → RoomsValid s.rooms
    → KeepsRooms (archive_each slugs s)
unfolding archive_each
archive_each-KeepsRooms [] s v = v
archive_each-KeepsRooms ((slug, pid) ∷ more) s v =
    archive_each-KeepsRooms more (archive_room slug s).0 (archive_room-KeepsRooms slug s v)

pub op_rooms_gc-KeepsRooms :
    (from : String) (s : State) → RoomsValid s.rooms → KeepsRooms (op_rooms_gc from s)
unfolding op_rooms_gc gc_rooms
op_rooms_gc-KeepsRooms from s v = if_both KeepsRooms (from == "") v (
    if_both KeepsRooms (not (present (agent_by_name from s))) v (
      if_both KeepsRooms (not (role_is "supervisor" (agent_by_name from s))) v
        (archive_each-KeepsRooms (gc_candidates from s.tasks s) s v)))

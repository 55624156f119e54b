-- ===== src/Rooms/Runs.antt =====
-- room.go: the calls on rooms, in any order.
use lalia.Prelude.{ℕ, String, List, [], ◌∷◌}
use lalia.Types.{ChanId, State}
use lalia.Rooms.{
  op_room_create, op_join, op_leave, op_post, room_read, room_read_wake, room_read_timeout,
}
use lalia.Rooms.Valid.{
  RoomsValid, op_room_create-KeepsRooms, op_join-KeepsRooms, op_leave-KeepsRooms,
  op_post-KeepsRooms, room_read-KeepsRooms, room_read_wake-KeepsRooms, room_read_timeout-KeepsRooms,
}

-- The calls on rooms, with the steps of a read that blocks: what its goroutine does when a signal
-- is there, and when its timer fires.
pub data RoomCall : Type 0 where
  create : String → String → String → RoomCall
  join leave : String → String → RoomCall
  post : String → String → String → RoomCall
  read : String → String → ℕ → RoomCall
  wake : String → String → ChanId → RoomCall
  give_up : String → String → RoomCall

abbrev pub room_step : ℕ → RoomCall → State → State
room_step now (create from name desc) s = (op_room_create now from name desc s).0
room_step now (join from room) s = (op_join from room s).0
room_step now (leave from room) s = (op_leave from room s).0
room_step now (post from room body) s = (op_post now from room body s).0
room_step now (read from room timeout) s = (room_read from room timeout s).0
room_step now (wake from room ch) s = (room_read_wake from room ch s).0
room_step now (give_up from room) s = (room_read_timeout from room s).0

abbrev pub room_run : List (ℕ × RoomCall) → State → State
room_run [] s = s
room_run ((now, c) ∷ cs) s = room_run cs (room_step now c s)

room_step-RoomsValid :
    (now : ℕ) (c : RoomCall) (s : State) → RoomsValid s.rooms → RoomsValid (room_step now c s).rooms
room_step-RoomsValid now (create from name desc) s v =
    op_room_create-KeepsRooms s v now from name desc
room_step-RoomsValid now (join from room) s v = op_join-KeepsRooms s v from room
room_step-RoomsValid now (leave from room) s v = op_leave-KeepsRooms s v from room
room_step-RoomsValid now (post from room body) s v = op_post-KeepsRooms s v now from room body
room_step-RoomsValid now (read from room timeout) s v = room_read-KeepsRooms s v from room timeout
room_step-RoomsValid now (wake from room ch) s v = room_read_wake-KeepsRooms from room ch s v
room_step-RoomsValid now (give_up from room) s v = room_read_timeout-KeepsRooms s v from room

-- Whatever sequence of calls on rooms the daemon serves, and however the steps of blocked reads fall
-- between them: if every room is valid at the start, then so is every room at the end. Its members
-- are distinct, no mailbox holds more than 64 messages, sequence numbers rise strictly in each
-- mailbox and in the log up to the room's own, and the room stands in the map under its own name.
pub room_run-RoomsValid :
    (calls : List (ℕ × RoomCall)) (s : State)
    → RoomsValid s.rooms
    → RoomsValid (room_run calls s).rooms
room_run-RoomsValid [] s v = v
room_run-RoomsValid ((now, c) ∷ cs) s v =
    room_run-RoomsValid cs (room_step now c s) (room_step-RoomsValid now c s v)

-- ===== src/Dispatch/Daemon.antt =====
-- state.go: the daemon as a sequence of steps. A step is a request, a wake-up or a timeout of a read
-- that waits, or a sweep.
use lalia.Prelude.{ℕ, String, Option, none, some, List, [], ◌∷◌}
use lalia.Prelude.Dict.{Dict, get}
use lalia.Types.{ChanId, Channel, State}
use lalia.Signing.{Json}
use lalia.Rooms.{room_read_wake, room_read_timeout}
use lalia.Rooms.Valid.{RoomsValid, room_read_wake-KeepsRooms, room_read_timeout-KeepsRooms}
use lalia.Channel.{read_wake, read_timeout, set_channel}
use lalia.Messaging.{read_any_wake, read_any_timeout}
use lalia.Session.{sweep}
use lalia.Session.RoomsKept.{sweep-RoomsValid}
use lalia.Channel.RoomsKept.{read_wake-KeepsRooms, rooms-set_channel}
use lalia.Messaging.RoomsKept.{read_any_wake-KeepsRooms}
use lalia.Dispatch.{World, dispatch}
use lalia.Dispatch.Rooms.{dispatch-KeepsRooms}

pub data Event : Type 0 where
  request : World → String → Dict Json → Event
  room_wake : String → String → ChanId → Event
  room_timeout : String → String → Event
  peer_wake : ChanId → Event
  peer_timeout : String → String → Event
  any_wake : ChanId → Event
  any_timeout : String → Event
  tick : ℕ → Event

abbrev pub expire_peer : String → String → Option Channel → State → State
expire_peer key from none s = s
expire_peer key from (some c) s = set_channel key (read_timeout from c).0 s

abbrev pub step : Event → State → State
step (request w op args) s = (dispatch w op args s).0
step (room_wake from room ch) s = (room_read_wake from room ch s).0
step (room_timeout from room) s = (room_read_timeout from room s).0
step (peer_wake ch) s = (read_wake ch s).0
step (peer_timeout key from) s = expire_peer key from (get key s.channels) s
step (any_wake ch) s = (read_any_wake ch s).0
step (any_timeout from) s = (read_any_timeout from s).0
step (tick now) s = sweep now s

abbrev pub daemon : List Event → State → State
daemon [] s = s
daemon (e ∷ es) s = daemon es (step e s)

step-RoomsValid : (e : Event) (s : State) → RoomsValid s.rooms → RoomsValid (step e s).rooms
step-RoomsValid (request w op args) s v = dispatch-KeepsRooms w op args s v
step-RoomsValid (room_wake from room ch) s v = room_read_wake-KeepsRooms from room ch s v
step-RoomsValid (room_timeout from room) s v = room_read_timeout-KeepsRooms s v from room
step-RoomsValid (peer_wake ch) s v = read_wake-KeepsRooms ch s v
step-RoomsValid (peer_timeout key from) s v = expired (get key s.channels)
  where
    expired : (o : Option Channel) → RoomsValid (expire_peer key from o s).rooms
    expired none = v
    expired (some c) = simp rooms-set_channel v
step-RoomsValid (any_wake ch) s v = read_any_wake-KeepsRooms ch s v
step-RoomsValid (any_timeout from) s v = unfold read_any_timeout in v
step-RoomsValid (tick now) s v = sweep-RoomsValid now s v

-- Whatever sequence of steps the daemon takes, its requests of any operation, signed or not, the
-- wake-ups and timeouts of reads that wait, and sweeps, in any order: if every room is valid at the
-- start, then so is every room at the end. Its members are distinct, no mailbox holds more than 64
-- messages, sequence numbers rise strictly in each mailbox and in the log up to the room's own, and
-- the room stands in the map under its own name.
pub daemon-RoomsValid :
    (es : List Event) (s : State) → RoomsValid s.rooms → RoomsValid (daemon es s).rooms
daemon-RoomsValid [] s v = v
daemon-RoomsValid (e ∷ es) s v = daemon-RoomsValid es (step e s) (step-RoomsValid e s v)

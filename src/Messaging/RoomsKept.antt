-- ===== src/Messaging/RoomsKept.antt =====
-- state.go: the handlers that send and read messages keep every room valid.
use lalia.Prelude.{
  ℕ, ◌≡◌, refl, String, Bool, not, ◌&&◌, ◌||◌, Option, none, some, List, [], ◌∷◌, if_both, ◌==◌,
  arith, contains, subst,
}
use lalia.Prelude.Dict.{Dict, get, put, get_or-put}
use lalia.Types.{Message, RoomMessage, Channel, ChanId, Room, State, Signal}
use lalia.Queue.Frame.{rooms-with_queue}
use lalia.Room.{inbox}
use lalia.Room.Invariant.{RoomIsValid, Rising, Rising-lower}
use lalia.Rooms.Valid.{RoomsValid, KeepsRooms, put-RoomsValid, rooms_frame, room_read-KeepsRooms}
use lalia.Channel.RoomsKept.{rooms-tell, rooms-read, rooms-set_channel}
use lalia.Registry.{Nickname, agent_by_name, resolve_peer_name}
use lalia.Messaging.{
  present, tell_peer, op_tell, read_peer, op_read, first_pending, first_room, wait_any, any_room,
  any_channel, op_read_any, wake_any, read_any_wake,
}
use lalia.Rooms.{received, receive}

-- The mailbox of a name without its oldest message
taken-RoomIsValid :
    (from : String) (r : Room) (m : RoomMessage) (q : List RoomMessage)
    → inbox r from ≡ m ∷ q
    → RoomIsValid r
    → RoomIsValid (record r { mailbox = put from q r.mailbox })
taken-RoomIsValid from r m q e v = record {
  distinct = v.distinct;
  bounded = λ j. ground (arith, get_or-put from j q [] r.mailbox, v.bounded j, v.bounded from, e);
  ordered = λ j.
      rw (get_or-put from j q [] r.mailbox)
        (if_both (Rising 0 r.seq) (from == j) shorter (v.ordered j));
  logged = v.logged;
}
  where
    whole : Rising 0 r.seq (m ∷ q)
    whole = subst (Rising 0 r.seq) e (v.ordered from)

    shorter : Rising 0 r.seq q
    shorter = Rising-lower m.seq 0 r.seq q (omega arith) whole.1

-- What opReadAny finds in the first pass over the rooms
Found : String → Option (String × Room × RoomMessage × List RoomMessage) → Type 0
Found from none = Unit
Found from (some (k, r, m, q)) = (RoomIsValid r × (r.name ≡ k)) × (inbox r from ≡ m ∷ q)

first_room-Found : (from : String) (d : Dict Room) → RoomsValid d → Found from (first_room from d)
unfolding first_room Found
first_room-Found from [] v = tt
first_room-Found from ((k, r) ∷ d) (here, rest) =
    if_both (Found from) (contains from r.members)
      (go (first_room-Found from d rest) (inbox r from) refl) (first_room-Found from d rest)
  where
    go :
        Found from (first_room from d)
        → (o : List RoomMessage) → inbox r from ≡ o
        → Found from (elim o [ m ∷ q ↦ some (k, r, m, q) | [] ↦ first_room from d ])
    go later [] e = later
    go later (m ∷ q) e = (here, e)

module _ (s : State) (v : RoomsValid s.rooms) where
  wait_any-KeepsRooms : (from : String) (o : Option ChanId) → KeepsRooms (wait_any from o s)
  unfolding wait_any
  wait_any-KeepsRooms from none = v
  wait_any-KeepsRooms from (some ch) = v

  any_room-KeepsRooms :
      (from : String) (o : Option (String × Room × RoomMessage × List RoomMessage))
      → Found from o
      → KeepsRooms (any_room from o s)
  unfolding any_room Found
  any_room-KeepsRooms from none f = wait_any-KeepsRooms from (get from s.any_waiter)
  any_room-KeepsRooms from (some (k, r, m, q)) ((w, n), e) =
      simp rooms_frame (put-RoomsValid k _ s.rooms v (taken-RoomIsValid from r m q e w) n)

  any_channel-KeepsRooms :
      (from : String) (o : Option (String × Channel × Message × List Message))
      → KeepsRooms (any_channel from o s)
  unfolding any_channel
  any_channel-KeepsRooms from none =
      any_room-KeepsRooms from (first_room from s.rooms) (first_room-Found from s.rooms v)
  any_channel-KeepsRooms from (some (k, c, m, q)) = simp (rooms-with_queue, rooms-set_channel) v

  pub op_read_any-KeepsRooms : (from : String) → KeepsRooms (op_read_any from s)
  unfolding op_read_any
  op_read_any-KeepsRooms from =
      if_both KeepsRooms (from == "") v
        (any_channel-KeepsRooms from (first_pending from s.channels))

  module _ (is_ulid : String → Bool) (nicknames : Dict Nickname) where
    tell_peer-KeepsRooms :
        (now : ℕ) (from body : String) (o : Option String)
        → KeepsRooms (tell_peer now from body o s)
    unfolding tell_peer
    tell_peer-KeepsRooms now from body none = v
    tell_peer-KeepsRooms now from body (some peer) = simp (rooms-set_channel, rooms-tell) v

    pub op_tell-KeepsRooms :
        (now : ℕ) (from peer body : String)
        → KeepsRooms (op_tell is_ulid nicknames now from peer body s)
    unfolding op_tell
    op_tell-KeepsRooms now from peer body = if_both KeepsRooms ((from == "") || (peer == "")) v (
        if_both KeepsRooms (from == peer) v (
          if_both KeepsRooms (not (present (agent_by_name from s))) v
            (tell_peer-KeepsRooms now from body (resolve_peer_name is_ulid nicknames peer s))))

    read_peer-KeepsRooms :
        (from : String) (wait : ℕ) (o : Option String)
        → KeepsRooms (read_peer is_ulid nicknames from wait o s)
    unfolding read_peer
    read_peer-KeepsRooms from wait none = v
    read_peer-KeepsRooms from wait (some peer) = simp (rooms-set_channel, rooms-read) v

    pub op_read-KeepsRooms :
        (from peer room : String) (wait : ℕ)
        → KeepsRooms (op_read is_ulid nicknames from peer room wait s)
    unfolding op_read
    op_read-KeepsRooms from peer room wait = if_both KeepsRooms (from == "") v (
        if_both KeepsRooms ((peer == "") && (room == "")) v (
          if_both KeepsRooms (not (peer == "") && not (room == "")) v (
            if_both KeepsRooms (not (peer == ""))
              (read_peer-KeepsRooms from wait (resolve_peer_name is_ulid nicknames peer s))
              (room_read-KeepsRooms s v from room wait))))

pub read_any_wake-KeepsRooms :
    (ch : ChanId) (s : State) → RoomsValid s.rooms → KeepsRooms (read_any_wake ch s)
unfolding read_any_wake received
read_any_wake-KeepsRooms ch s v = go (receive ch s.signals)
  where
    go : (o : Option Signal) → KeepsRooms (wake_any ch o s)
    go none = unfold wake_any in v
    go (some (Signal.wait_message m)) = unfold wake_any in v
    go (some (Signal.wait_error code)) = unfold wake_any in v
    go (some (Signal.room_signal m)) = unfold wake_any in v
    go (some (Signal.any_signal k target m)) = unfold wake_any in v

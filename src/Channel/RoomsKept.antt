-- ===== src/Channel/RoomsKept.antt =====
-- channel.go: a channel leaves the rooms alone.
use lalia.Prelude.{
  ℕ, ◌≡◌, refl, ◌∙◌, String, Bool, true, false, Option, none, some, List, [], ◌∷◌, if_both, eqb,
}
use lalia.Prelude.Dict.{get}
use lalia.Types.{Message, Channel, ChanId, State, Kind, Signal}
use lalia.Response.{Outcome}
use lalia.Queue.Frame.{rooms-enqueue_write, rooms-with_queue}
use lalia.Room.{send, deliver_any, deliver_any_to}
use lalia.Channel.{
  peer_of, tell_mailbox, tell_waiter, tell_to, tell, write_peer_message, read_pending, read_by,
  read, pending, set_channel, wake_read, read_wake,
}
use lalia.Rooms.{received, receive}
use lalia.Rooms.Valid.{RoomsValid, KeepsRooms}

rooms-deliver_any_to :
    (o : Option ChanId) (to : String) (k : Kind) (target : String) (m : Message) (s : State)
    → (deliver_any_to o to k target m s).0.rooms ≡ s.rooms
unfolding deliver_any_to send
rooms-deliver_any_to none to k target m s = refl
rooms-deliver_any_to (some ch) to k target m s = refl

rooms-tell_mailbox :
    (m : Message) (to : String) (c : Channel) (o : State × Bool)
    → (tell_mailbox m to c o).1.rooms ≡ o.0.rooms
unfolding tell_mailbox
rooms-tell_mailbox m to c (s, true) = refl
rooms-tell_mailbox m to c (s, false) = rooms-with_queue _ s

rooms-tell_waiter :
    (o : Option ChanId) (m : Message) (to : String) (c : Channel) (s : State)
    → (tell_waiter o m to c s).1.rooms ≡ s.rooms
unfolding tell_waiter send deliver_any
rooms-tell_waiter (some ch) m to c s = refl
rooms-tell_waiter none m to c s =
    rooms-tell_mailbox m to c _ ∙ rooms-deliver_any_to (get to s.any_waiter) to _ _ m s

rooms-tell_to :
    (o : Option String) (from : String) (now : ℕ) (body : String) (c : Channel) (s : State)
    → (tell_to o from now body c s).1.rooms ≡ s.rooms
unfolding tell_to write_peer_message
rooms-tell_to none from now body c s = refl
rooms-tell_to (some to) from now body c s =
    rooms-tell_waiter (get to c.waiter) _ to _ _ ∙ rooms-enqueue_write _ _ s

pub rooms-tell :
    (from : String) (now : ℕ) (body : String) (c : Channel) (s : State)
    → (tell from now body c s).1.rooms ≡ s.rooms
unfolding tell
rooms-tell from now body c s = rooms-tell_to (peer_of from c) from now body c s

rooms-read_pending :
    (from : String) (wait : ℕ) (q : List Message) (c : Channel) (s : State)
    → (read_pending from wait q c s).1.rooms ≡ s.rooms
unfolding read_pending
rooms-read_pending from wait (m ∷ q) c s = rooms-with_queue _ s
rooms-read_pending from wait [] c s =
    if_both (λ (o : Channel × State × Outcome). o.1.rooms ≡ s.rooms) (eqb wait 0) refl refl

pub rooms-read :
    (from : String) (wait : ℕ) (c : Channel) (s : State) → (read from wait c s).1.rooms ≡ s.rooms
unfolding read
rooms-read from wait c s = go (peer_of from c)
  where
    go : (o : Option String) → (read_by o from wait c s).1.rooms ≡ s.rooms
    go none = unfold read_by in refl
    go (some to) = unfold read_by in rooms-read_pending from wait (pending c from) c s

pub rooms-set_channel : (k : String) (c : Channel) (s : State) → (set_channel k c s).rooms ≡ s.rooms
unfolding set_channel
rooms-set_channel k c s = refl

pub read_wake-KeepsRooms :
    (ch : ChanId) (s : State) → RoomsValid s.rooms → KeepsRooms (read_wake ch s)
unfolding read_wake received
read_wake-KeepsRooms ch s v = go (receive ch s.signals)
  where
    go : (o : Option Signal) → KeepsRooms (wake_read ch o s)
    go none = unfold wake_read in v
    go (some (Signal.wait_message m)) = unfold wake_read in v
    go (some (Signal.wait_error code)) = unfold wake_read in v
    go (some (Signal.room_signal m)) = unfold wake_read in v
    go (some (Signal.any_signal k target m)) = unfold wake_read in v

-- ===== src/Room.antt =====
-- room.go: a room, its delivery loop, and the part of deliverAny (state.go) that the loop calls.
pub mod Delivery
pub mod Signals
pub mod Mailbox
pub mod Invariant
use lalia.Prelude.{
  ℕ, suc, ◌+◌, String, Bool, true, false, Option, none, some, List, [], ◌∷◌, ◌++◌, ◌||◌,
  if◌then◌else◌, leb, ◌==◌, contains, remove_name, length, drop,
}
use lalia.Prelude.Dict
use lalia.Prelude.Dict.{get, get_or, put}
use lalia.Types.{
  Content, Message, RoomMessage, Room, Kind, ChanId, Signal, any_signal, room_signal, State,
  room_message_file, room_definition_file, room_members_file, rfc3339,
}
use lalia.Queue.{mailbox_append, mailbox_drop_oldest, with_queue, enqueue_write}
use lalia.Text.{safe_path_segment, sort_strings, trim_space}

abbrev pub room_max_members : ℕ
room_max_members = 8

abbrev pub room_mailbox_limit : ℕ
room_mailbox_limit = 64

-- newRoom
unfoldable pub new_room : String → String → String → ℕ → Room
new_room name desc created_by now = record {
  name = name;
  desc = desc;
  created_by = created_by;
  created_at = now;
  archived = false;
  seq = 0;
  log = [];
  members = created_by ∷ [];
  mailbox = [];
  dropped = [];
  waiter = [];
}

-- toPeerMsg
unfoldable pub to_peer_msg : RoomMessage → Message
to_peer_msg m = record { seq = m.seq; from = m.from; ts = m.ts; body = m.body }

-- `ch <- v` on a Go channel whose buffer is empty
unfoldable pub send : ChanId → Signal → State → State
send ch v s = record s { signals = s.signals ++ ((ch, v) ∷ []) }

-- deliverAny; the flag says that a waiter took the message
unfoldable pub deliver_any_to :
    Option ChanId → String → Kind → String → Message → State → State × Bool
unfolding send
deliver_any_to none to kind target msg s = (s, false)
deliver_any_to (some ch) to kind target msg s = (
  send ch (any_signal kind target msg) (record s { any_waiter = Dict.remove to s.any_waiter }),
  true,
)

unfoldable pub deliver_any : String → Kind → String → Message → State → State × Bool
unfolding deliver_any_to
deliver_any to kind target msg s = deliver_any_to (get to s.any_waiter) to kind target msg s

-- The pending messages of a member, `r.mailbox[member]`, and its counter of dropped ones.
abbrev pub inbox : Room → String → List RoomMessage
inbox r j = get_or j [] r.mailbox

abbrev pub drops : Room → String → ℕ
drops r j = get_or j 0 r.dropped

abbrev pub head_seq : List RoomMessage → ℕ
head_seq [] = 0
head_seq (m ∷ q) = m.seq

-- `q = q[1:]` of a full mailbox, then `append(q, msg)`
unfoldable pub push_bounded : RoomMessage → List RoomMessage → List RoomMessage
push_bounded msg q = (if leb room_mailbox_limit (length q) then drop 1 q else q) ++ (msg ∷ [])

-- The mailbox and the counter of a member after one more message, in both delivery loops.
unfoldable pub enqueue_bounded : RoomMessage → String → Room → Room
unfolding push_bounded
enqueue_bounded msg member r =
    let q = get_or member [] r.mailbox in
    record r {
      dropped =
          if leb room_mailbox_limit (length q)
          then put member (get_or member 0 r.dropped + 1) r.dropped
          else r.dropped;
      mailbox = put member (push_bounded msg q) r.mailbox;
    }

-- What the loop of opPost writes to the database for a message that goes to a mailbox.
unfoldable pub persist_bounded : RoomMessage → String → Room → State → State
unfolding with_queue
persist_bounded msg member r s =
    let q = get_or member [] r.mailbox in
    let s' =
      if leb room_mailbox_limit (length q)
      then with_queue (mailbox_drop_oldest member Kind.room r.name (head_seq q)) s
      else s in
    with_queue (mailbox_append member Kind.room r.name msg.seq msg.from msg.ts msg.body) s'

-- A turn of a delivery loop: opPost's if the flag is true, internalPost's, which leaves the
-- database alone, if it is false.
pub deliver_mailbox : Bool → RoomMessage → String → Room → State × Bool → Room × State
unfolding enqueue_bounded persist_bounded
deliver_mailbox persisted msg member r (s, true) = (r, s)
deliver_mailbox true msg member r (s, false) =
    (enqueue_bounded msg member r, persist_bounded msg member r s)
deliver_mailbox false msg member r (s, false) = (enqueue_bounded msg member r, s)

pub deliver_waiter : Bool → Option ChanId → RoomMessage → String → Room → State → Room × State
unfolding deliver_mailbox deliver_any send
deliver_waiter persisted (some ch) msg member r s =
    (record r { waiter = Dict.remove member r.waiter }, send ch (room_signal msg) s)
deliver_waiter persisted none msg member r s =
    deliver_mailbox persisted msg member r (deliver_any member Kind.room r.name (to_peer_msg msg) s)

unfoldable pub deliver_one : Bool → RoomMessage → String → Room → State → Room × State
unfolding deliver_waiter
deliver_one persisted msg member r s =
    if member == msg.from
    then (r, s)
    else deliver_waiter persisted (get member r.waiter) msg member r s

-- `for member := range r.members`
unfoldable pub deliver_all : Bool → RoomMessage → List String → Room → State → Room × State
deliver_all persisted msg [] r s = (r, s)
deliver_all persisted msg (m ∷ ms) r s =
    let (r', s') = deliver_one persisted msg m r s in deliver_all persisted msg ms r' s'

-- The numbered message that a post appends to the log.
unfoldable pub next_message : Room → String → ℕ → String → RoomMessage
next_message r from now body = record {
  seq = suc r.seq;
  room = r.name;
  from = from;
  ts = now;
  body = body;
}

-- The part of opPost and of internalPost that runs under r.mu.
unfoldable pub post_to : Bool → String → ℕ → String → Room → State → Room × State
unfolding next_message
post_to persisted from now body r s =
    let msg = next_message r from now body in
    deliver_all persisted msg r.members (record r { seq = suc r.seq; log = r.log ++ (msg ∷ []) }) s

-- The file that a post writes.
unfoldable pub write_room_message : String → RoomMessage → State → State
write_room_message room msg s =
    enqueue_write (room_message_file room msg.seq (safe_path_segment msg.from))
      (Content.room_message msg) s

-- persistRoomDefinition
unfoldable pub persist_room_definition : Room → State → State
persist_room_definition r s =
    enqueue_write (room_definition_file r.name)
      (Content.room_definition r.name r.created_by (rfc3339 r.created_at) (trim_space r.desc)) s

-- persistRoomMembers
unfoldable pub persist_room_members : Room → State → State
persist_room_members r s =
    enqueue_write (room_members_file r.name) (Content.room_members r.name (sort_strings r.members))
      s

-- removeMembers: the loop over `names`, and whether anything changed
unfoldable pub remove_member : String → Room → Room
remove_member name r = record r {
  members = remove_name name r.members;
  mailbox = Dict.remove name r.mailbox;
  dropped = Dict.remove name r.dropped;
  waiter = Dict.remove name r.waiter;
}

unfoldable pub remove_members : List String → Room → Room × Bool
unfolding remove_member
remove_members [] r = (r, false)
remove_members (n ∷ ns) r =
    let here = contains n r.members in
    let (r', changed) = remove_members ns (if here then remove_member n r else r) in
    (r', here || changed)

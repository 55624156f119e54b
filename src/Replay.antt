-- ===== src/Replay.antt =====
-- state.go: replayMailbox; registry.go: loadRooms. What a restart of the daemon rebuilds.
pub mod Restart
use lalia.Prelude.{ℕ, ◌*◌, String, Option, none, some, List, [], ◌∷◌, ◌++◌, if◌then◌else◌, ltb}
use lalia.Prelude.Dict.{get, get_or, put}
use lalia.Types.{
  RoomMessage, Room, Channel, Kind, peer, room, MailboxRow, MailboxDroppedRow, RoomRecord, Queue,
  State,
}
use lalia.Queue.{members_of}
use lalia.Rooms.{set_room}
use lalia.Channel.{channel_key, channel_or_new, set_channel}

-- time.Parse of an RFC 3339 text, which is kept as the second that it names
unfoldable pub parse_rfc3339 : ℕ → ℕ
parse_rfc3339 t = t * 1000000000

abbrev larger : ℕ → ℕ → ℕ
larger a b = if ltb b a then a else b

-- The message that replayMailbox makes of a row of kind "room".
unfoldable pub from_row : String → MailboxRow → RoomMessage
from_row name row = record {
  seq = row.seq;
  room = name;
  from = row.from_name;
  ts = parse_rfc3339 row.ts;
  body = row.body;
}

unfoldable pub replay_in_room : MailboxRow → Room → Room
replay_in_room row r = record r {
  mailbox =
      put row.recipient (get_or row.recipient [] r.mailbox ++ (from_row row.target row ∷ []))
        r.mailbox;
  seq = larger row.seq r.seq;
}

unfoldable pub replay_in_channel : MailboxRow → Channel → Channel
replay_in_channel row c = record c {
  mailbox =
      put row.recipient
        (get_or row.recipient [] c.mailbox
          ++ (record {
            seq = row.seq;
            from = row.from_name;
            ts = parse_rfc3339 row.ts;
            body = row.body;
          }
              ∷ []))
        c.mailbox;
  seq = larger row.seq c.seq;
}

unfoldable pub replay_room : MailboxRow → Option Room → State → State
replay_room row none s = s
replay_room row (some r) s = set_room row.target (replay_in_room row r) s

unfoldable pub replay_kind : Kind → MailboxRow → State → State
unfolding replay_room
replay_kind peer row s =
    set_channel (channel_key row.recipient row.target)
      (replay_in_channel row (channel_or_new row.recipient row.target s)) s
replay_kind room row s = replay_room row (get row.target s.rooms) s

-- The loop over mailboxRows
unfoldable pub replay_rows : List MailboxRow → State → State
unfolding replay_kind
replay_rows [] s = s
replay_rows (row ∷ rows) s = replay_rows rows (replay_kind row.kind row s)

unfoldable pub replay_dropped_room : MailboxDroppedRow → Option Room → State → State
replay_dropped_room row none s = s
replay_dropped_room row (some r) s =
    set_room row.target (record r { dropped = put row.recipient row.dropped r.dropped }) s

unfoldable pub replay_dropped_kind : Kind → MailboxDroppedRow → State → State
unfolding replay_dropped_room
replay_dropped_kind peer row s = s
replay_dropped_kind room row s = replay_dropped_room row (get row.target s.rooms) s

-- The loop over mailboxDropped
unfoldable pub replay_dropped : List MailboxDroppedRow → State → State
unfolding replay_dropped_kind
replay_dropped [] s = s
replay_dropped (row ∷ rows) s = replay_dropped rows (replay_dropped_kind row.kind row s)

-- replayMailbox
unfoldable pub replay_mailbox : Queue → State → State
unfolding replay_rows replay_dropped
replay_mailbox q s = replay_dropped q.mailbox_dropped (replay_rows q.mailbox s)

-- loadRooms. `logs` is the transcript of a room, as parsed from its files in their order.
last_seq : ℕ → List RoomMessage → ℕ
last_seq n [] = n
last_seq n (m ∷ ms) = last_seq (larger m.seq n) ms

unfoldable pub load_room : List RoomMessage → List String → RoomRecord → Room
unfolding last_seq
load_room log members rec = record {
  name = rec.name;
  desc = rec.desc;
  created_by = rec.created_by;
  created_at = parse_rfc3339 rec.created_at;
  archived = rec.archived;
  seq = last_seq 0 log;
  log = log;
  members = members;
  mailbox = [];
  dropped = [];
  waiter = [];
}

load_records : (String → List RoomMessage) → Queue → List RoomRecord → State → State
unfolding load_room
load_records logs q [] s = s
load_records logs q (rec ∷ recs) s = load_records logs q recs (
    set_room rec.name (load_room (logs rec.name) (members_of rec.name q.mailbox_room_members) rec)
      s)

unfoldable pub load_rooms : (String → List RoomMessage) → Queue → State → State
unfolding load_records
load_rooms logs q s = load_records logs q q.mailbox_rooms s

-- ===== src/Queue.antt =====
-- queue.go: the SQL statements as functions on the tables. Every statement is taken to succeed;
-- the callers ignore the errors of all of them but insert, bumpAttempts and deadLetter.
pub mod Frame
pub mod Rows
use lalia.Prelude.{
  ℕ, suc, ◌+◌, String, Bool, true, false, not, ◌&&◌, Option, none, some, List, [], ◌∷◌, ◌++◌,
  if◌then◌else◌, eqb, ◌==◌, keep, contains,
}
use mathlib.Core.Option
use lalia.Types.{
  Kind, peer, room, QueueRow, MailboxRow, MailboxDroppedRow, RoomRecord, Queue, State, FilePath,
  Content, rfc3339,
}

abbrev pub kind_eq : Kind → Kind → Bool
kind_eq peer peer = true
kind_eq room room = true
kind_eq _ _ = false

-- openQueue, on a fresh database
unfoldable pub open_queue : Queue
open_queue = record {
  next_id = 1;
  queue = [];
  queue_dead = [];
  mailbox_rooms = [];
  mailbox_room_members = [];
  mailbox = [];
  mailbox_dropped = [];
}

-- insert
unfoldable pub insert : FilePath → Content → Queue → Queue × ℕ
insert path content q = (
  record q {
    next_id = suc q.next_id;
    queue =
        q.queue
        ++ (record { id = q.next_id; rel_path = path; content = content; attempts = 0 } ∷ []);
  },
  q.next_id,
)

-- bumpAttempts
unfoldable pub bump_rows : ℕ → List QueueRow → List QueueRow
bump_rows id [] = []
bump_rows id (r ∷ rs) =
    (if eqb r.id id then record r { attempts = r.attempts + 1 } else r) ∷ bump_rows id rs

unfoldable pub bump_attempts : ℕ → Queue → Queue
unfolding bump_rows
bump_attempts id q = record q { queue = bump_rows id q.queue }

abbrev pub has_id : ℕ → List QueueRow → Bool
has_id id [] = false
has_id id (r ∷ rs) = if eqb r.id id then true else has_id id rs

-- deadLetter: INSERT OR IGNORE, then DELETE, in one transaction
unfoldable pub dead_letter : QueueRow → Queue → Queue
dead_letter r q = record q {
  queue_dead = if has_id r.id q.queue_dead then q.queue_dead else q.queue_dead ++ (r ∷ []);
  queue = keep (λ x. not (eqb x.id r.id)) q.queue;
}

-- delete
unfoldable pub delete : ℕ → Queue → Queue
delete id q = record q { queue = keep (λ x. not (eqb x.id id)) q.queue }

-- WHERE recipient=? AND kind=? AND target=?
unfoldable pub addressed : String → Kind → String → MailboxRow → Bool
addressed recipient kind target r =
    (r.recipient == recipient) && kind_eq r.kind kind && (r.target == target)

abbrev dropped_for : String → Kind → String → MailboxDroppedRow → Bool
dropped_for recipient kind target r =
    (r.recipient == recipient) && kind_eq r.kind kind && (r.target == target)

-- mailboxAppend
unfoldable pub mailbox_append : String → Kind → String → ℕ → String → ℕ → String → Queue → Queue
mailbox_append recipient kind target seq from_name ts body q = record q {
  mailbox =
      q.mailbox
      ++ (record {
        recipient = recipient;
        kind = kind;
        target = target;
        seq = seq;
        from_name = from_name;
        ts = rfc3339 ts;
        body = body;
      }
          ∷ []);
}

-- mailboxDeleteOne
unfoldable pub mailbox_delete_one : String → Kind → String → ℕ → Queue → Queue
mailbox_delete_one recipient kind target seq q = record q {
  mailbox = keep (λ r. not (addressed recipient kind target r && eqb r.seq seq)) q.mailbox;
}

-- mailboxConsumeAll
unfoldable pub mailbox_consume_all : String → Kind → String → Queue → Queue
mailbox_consume_all recipient kind target q = record q {
  mailbox = keep (λ r. not (addressed recipient kind target r)) q.mailbox;
  mailbox_dropped = keep (λ r. not (dropped_for recipient kind target r)) q.mailbox_dropped;
}

-- INSERT … ON CONFLICT DO UPDATE SET dropped = dropped + 1
count_drop : String → Kind → String → List MailboxDroppedRow → List MailboxDroppedRow
count_drop recipient kind target [] =
    record { recipient = recipient; kind = kind; target = target; dropped = 1 } ∷ []
count_drop recipient kind target (r ∷ rs) =
    if dropped_for recipient kind target r
    then record r { dropped = r.dropped + 1 } ∷ rs
    else r ∷ count_drop recipient kind target rs

-- mailboxDropOldest
unfoldable pub mailbox_drop_oldest : String → Kind → String → ℕ → Queue → Queue
unfolding count_drop
mailbox_drop_oldest recipient kind target seq q = record q {
  mailbox = keep (λ r. not (addressed recipient kind target r && eqb r.seq seq)) q.mailbox;
  mailbox_dropped = count_drop recipient kind target q.mailbox_dropped;
}

-- roomUpsert
upsert_rooms : String → String → String → ℕ → List RoomRecord → List RoomRecord
upsert_rooms name desc created_by created_at [] =
    record {
      name = name;
      desc = desc;
      created_by = created_by;
      created_at = rfc3339 created_at;
      archived = false;
    }
    ∷ []
upsert_rooms name desc created_by created_at (r ∷ rs) =
    if r.name == name
    then record r { desc = desc; created_by = created_by } ∷ rs
    else r ∷ upsert_rooms name desc created_by created_at rs

unfoldable pub room_upsert : String → String → String → ℕ → Queue → Queue
unfolding upsert_rooms
room_upsert name desc created_by created_at q = record q {
  mailbox_rooms = upsert_rooms name desc created_by created_at q.mailbox_rooms;
}

-- roomMemberRows, for one room
unfoldable pub members_of : String → List (String × String) → List String
members_of name [] = []
members_of name ((r, m) ∷ rows) =
    if r == name then m ∷ members_of name rows else members_of name rows

-- roomAddMember: INSERT OR IGNORE on the primary key (room, member)
unfoldable pub room_add_member : String → String → Queue → Queue
room_add_member name member q = record q {
  mailbox_room_members =
      if contains member (members_of name q.mailbox_room_members)
      then q.mailbox_room_members
      else q.mailbox_room_members ++ ((name, member) ∷ []);
}

-- roomRemoveMember
unfoldable pub room_remove_member : String → String → Queue → Queue
room_remove_member name member q = record q {
  mailbox_room_members =
      keep (λ (e : String × String). not ((e.0 == name) && (e.1 == member))) q.mailbox_room_members;
}

-- roomSetArchived
archive_rows : String → Bool → List RoomRecord → List RoomRecord
archive_rows name flag [] = []
archive_rows name flag (r ∷ rs) =
    (if r.name == name then record r { archived = flag } else r) ∷ archive_rows name flag rs

unfoldable pub room_set_archived : String → Bool → Queue → Queue
unfolding archive_rows
room_set_archived name flag q = record q { mailbox_rooms = archive_rows name flag q.mailbox_rooms }

-- `if s.queue != nil { … }` in state.go, room.go, channel.go and task.go
unfoldable pub with_queue : (Queue → Queue) → State → State
with_queue f s = record s { queue = Option.map f s.queue }

-- writer.go: enqueueWrite. Without a database, and for an insert that fails, queueID stays 0.
unfoldable pub enqueue_row : FilePath → Content → Option Queue → State → State
enqueue_row path content none s = record s {
  writes =
      s.writes ++ (record { queue_id = 0; attempts = 0; rel_path = path; content = content } ∷ []);
}
enqueue_row path content (some q) s =
    let (q', id) = insert path content q in
    record s {
      queue = some q';
      writes =
          s.writes
          ++ (record { queue_id = id; attempts = 0; rel_path = path; content = content } ∷ []);
    }

unfoldable pub enqueue_write : FilePath → Content → State → State
unfolding enqueue_row insert
enqueue_write path content s = enqueue_row path content s.queue s

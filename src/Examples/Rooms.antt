-- ===== src/Examples/Rooms.antt =====
-- The theorems on rooms, mailboxes and a restart, at the example room.
use lalia.Prelude.{
  ◌≡◌, ◌≤◌, ◌-◌, ◌+◌, refl, String, true, false, ◌&&◌, some, List, [], ◌∷◌, ◌++◌, map, length,
  contains, Distinct, if◌then◌else◌, ◌==◌, arith, eq_iff, keep, Bool-cases, inl, inr, subst,
}
use lalia.Prelude.Dict.{get, get_or}
use lalia.Types.{Room, RoomMessage, RoomRecord, Kind, rfc3339, State, Queue}
use lalia.Queue.{addressed}
use lalia.Queue.Rows.{rows_for, to_row}
use lalia.Room.{inbox, drops, post_to, next_message, push_bounded, deliver_all, room_mailbox_limit}
use lalia.Room.Delivery.{to_mailbox, drop_count, drops-deliver_all}
use lalia.Room.Signals.{signals_to, signals-deliver_all}
use lalia.Room.Mailbox.{last_of, enqueue_run, enqueue_run-last}
use lalia.Room.Invariant.{RoomIsValid, inbox-post_to}
use lalia.Rooms.Durable.{Mirrors, MirroredIn, post_to-MirroredIn}
use lalia.Rooms.Unrecorded.{internal_post-unrecorded}
use lalia.TaskRooms.{internal_post}
use lalia.Replay.{load_room, replay_mailbox}
use lalia.Replay.Restart.{restored, replay_mailbox-restores}
use lalia.Examples.{office, fix_room, tables, note}

two_members : Distinct fix_room.members
unfolding contains
two_members = (refl, (refl, tt))

fix_room_is_valid : RoomIsValid fix_room
unfolding contains get_or
fix_room_is_valid = record {
  distinct = two_members;
  bounded = λ j. omega arith;
  ordered = λ j. omega arith;
  logged = omega arith;
}

fix_room_rows : Mirrors fix_room (tables [])
unfolding keep get_or
fix_room_rows j = refl

fix_room_mirrored : MirroredIn fix_room office
fix_room_mirrored = (tables [], refl, fix_room_rows)

post_to-MirroredIn_example :
    let after = post_to true "sue" 9 "hi" fix_room office in MirroredIn after.0 after.1
post_to-MirroredIn_example =
    post_to-MirroredIn "sue" 9 "hi" fix_room office fix_room_is_valid fix_room_mirrored

internal_post-unrecorded_example :
    (u : Room) × (q' : Queue) × (get "fix" (internal_post 9 "fix" "sue" "hi" fix_room office).rooms
      ≡ some u)
    × ((internal_post 9 "fix" "sue" "hi" fix_room office).queue ≡ some q')
    × (q'.mailbox_dropped ≡ [])
    × ((j : String) → rows_for j "fix" q' ≡ map (to_row j "fix") (inbox fix_room j))
    × ((j : String)
        → inbox u j ≡ (
            if contains j fix_room.members
              && to_mailbox (next_message fix_room "sue" 9 "hi") fix_room office j
            then push_bounded (next_message fix_room "sue" 9 "hi") (inbox fix_room j)
            else inbox fix_room j))
internal_post-unrecorded_example =
    internal_post-unrecorded 9 "fix" "sue" "hi" fix_room office (tables []) fix_room_is_valid refl
      fix_room_rows

inbox-post_to_example : inbox (post_to true "sue" 9 "hi" fix_room office).0 "bob" ≡ (
    if contains "bob" fix_room.members
      && to_mailbox (next_message fix_room "sue" 9 "hi") fix_room office "bob"
    then push_bounded (next_message fix_room "sue" 9 "hi") (inbox fix_room "bob")
    else inbox fix_room "bob")
inbox-post_to_example = inbox-post_to true "sue" 9 "hi" fix_room office "bob" two_members

drops-deliver_all_example :
    drops (deliver_all true (note 1 "sue" "hi") fix_room.members fix_room office).0 "bob" ≡ (
      if contains "bob" fix_room.members && to_mailbox (note 1 "sue" "hi") fix_room office "bob"
      then drops fix_room "bob" + drop_count (inbox fix_room "bob")
      else drops fix_room "bob")
drops-deliver_all_example =
    drops-deliver_all true (note 1 "sue" "hi") "bob" fix_room.members fix_room office two_members

-- Bob waits for a message of any source.
abbrev waiting : State
waiting = record office { any_waiter = ("bob", 3) ∷ [] }

signals-deliver_all_example :
    (deliver_all true (note 1 "sue" "hi") fix_room.members fix_room waiting).1.signals
    ≡ [] ++ signals_to (note 1 "sue" "hi") fix_room waiting fix_room.members
signals-deliver_all_example =
    signals-deliver_all true (note 1 "sue" "hi") fix_room.members fix_room waiting two_members

abbrev notes : List RoomMessage
notes = note 1 "sue" "one" ∷ note 2 "sue" "two" ∷ []

few : length (inbox fix_room "bob") ≤ room_mailbox_limit
unfolding get_or
few = omega arith

enqueue_run-last_example :
    (inbox (enqueue_run notes "bob" fix_room) "bob"
      ≡ last_of room_mailbox_limit (inbox fix_room "bob" ++ notes))
    × (drops (enqueue_run notes "bob" fix_room) "bob"
        ≡ drops fix_room "bob" + (length (inbox fix_room "bob" ++ notes) - room_mailbox_limit))
enqueue_run-last_example = enqueue_run-last notes "bob" fix_room few

-- A run of a room: it is made, joined, posted in, and read.
-- Bob has one unread message when the daemon stops.
abbrev stopped : Room
stopped = record fix_room { seq = 1; mailbox = ("bob", note 1 "sue" "hi" ∷ []) ∷ [] }

abbrev saved : Queue
saved = tables (
    record {
      recipient = "bob";
      kind = Kind.room;
      target = "fix";
      seq = 1;
      from_name = "sue";
      ts = 0;
      body = "hi";
    }
    ∷ [])

abbrev definition : RoomRecord
definition = record {
  name = "fix";
  desc = "";
  created_by = "sue";
  created_at = 0;
  archived = false;
}

abbrev started : State
started = record office { rooms = ("fix", load_room [] fix_room.members definition) ∷ [] }

table_of_stopped : Mirrors stopped saved
unfolding keep addressed get_or rfc3339
table_of_stopped j = elim (Bool-cases ("bob" == j)) [
  | inl same ↦
      subst (λ i. rows_for i "fix" saved ≡ map (to_row i "fix") (inbox stopped i))
        ((eq_iff "bob" j).0 same) refl
  | inr other ↦ rw other refl
]

fix_loaded : get "fix" started.rooms ≡ some (load_room [] fix_room.members definition)
unfolding get
fix_loaded = refl

replay_mailbox-restores_example :
    (u : Room) × (get "fix" (replay_mailbox saved started).rooms ≡ some u)
    × ((j : String) → inbox u j ≡ map (restored "fix") (inbox stopped j))
replay_mailbox-restores_example =
    replay_mailbox-restores stopped saved [] fix_room.members definition started table_of_stopped
      fix_loaded

-- ===== src/Rooms.antt =====
-- room.go: the room handlers, and the functions of task.go on rooms. A room pointer is the entry
-- of `State.rooms` under its name, since no handler deletes a room.
pub mod Valid
pub mod Runs
pub mod Durable
pub mod Unrecorded
use lalia.Prelude.{
  ℕ, suc, ◌-◌, String, Bool, true, false, not, Option, none, some, List, [], ◌∷◌, ◌++◌, ◌&&◌, ◌||◌,
  map, if◌then◌else◌, ltb, leb, eqb, ◌==◌, contains, add_name, keep, length, drop,
}
use lalia.Prelude.Dict
use lalia.Prelude.Dict.{get, put}
use lalia.Types.{RoomMessage, Room, Kind, ChanId, Signal, room_signal, State}
use lalia.Response.{
  Response, ok, error_response, Outcome, answered, blocked, RoomEntry, notice, message,
  room_created, room_member, participants, room_posted, room_entries, room_peeked, room_log,
  code_error, code_not_found, missing_from, missing_params, invalid_room_name, room_already_exists,
  room_not_found, room_archived, room_read_already_pending,
}
use lalia.Queue.{mailbox_consume_all, room_add_member, room_remove_member, room_upsert, with_queue}
use lalia.Text.{valid_room_name, sort_strings}
use lalia.Room.{
  new_room, inbox, drops, next_message, post_to, write_room_message, persist_room_definition,
  persist_room_members, remove_member, room_max_members,
}

-- `r` after its lock is released
unfoldable pub set_room : String → Room → State → State
set_room name r s = record s { rooms = put name r s.rooms }

-- opRoomCreate
unfoldable pub create_room : ℕ → String → String → String → Option Room → State → State × Response
create_room now from name desc (some r) s = (s, error_response code_error room_already_exists)
create_room now from name desc none s =
    let r = new_room name desc from now in
    let s1 = set_room name r s in
    let s2 = with_queue (room_upsert name desc from now) s1 in
    let s3 = with_queue (room_add_member name from) s2 in
    (persist_room_members r (persist_room_definition r s3), ok (room_created name desc from))

unfoldable pub op_room_create : ℕ → String → String → String → State → State × Response
op_room_create now from name desc s =
    if from == ""
    then (s, error_response code_error missing_from)
    else if not (valid_room_name name)
    then (s, error_response code_error invalid_room_name)
    else create_room now from name desc (get name s.rooms) s

-- opJoin
unfoldable pub join_room : String → String → Option Room → State → State × Response
join_room from room none s = (s, error_response code_not_found room_not_found)
join_room from room (some r) s =
    if contains from r.members
    then (s, ok (room_member room from))
    else if leb room_max_members (length r.members)
    then (s, error_response code_not_found room_not_found)
    else (let r' = record r { members = add_name from r.members } in
        (
          persist_room_members r' (with_queue (room_add_member room from) (set_room room r' s)),
          ok (room_member room from),
        ))

unfoldable pub op_join : String → String → State → State × Response
op_join from room s =
    if (from == "") || (room == "")
    then (s, error_response code_error missing_params)
    else join_room from room (get room s.rooms) s

-- opLeave
unfoldable pub leave_room : String → String → Option Room → State → State × Response
unfolding remove_member
leave_room from room none s = (s, error_response code_not_found room_not_found)
leave_room from room (some r) s =
    if not (contains from r.members)
    then (s, error_response code_not_found room_not_found)
    else (let r' = remove_member from r in
        (
          persist_room_members r' (with_queue (room_remove_member room from) (set_room room r' s)),
          ok (room_member room from),
        ))

unfoldable pub op_leave : String → String → State → State × Response
op_leave from room s =
    if (from == "") || (room == "")
    then (s, error_response code_error missing_params)
    else leave_room from room (get room s.rooms) s

-- opParticipants
unfoldable pub list_participants : String → String → Option Room → Response
list_participants from room none = error_response code_not_found room_not_found
list_participants from room (some r) =
    if not (contains from r.members)
    then error_response code_not_found room_not_found
    else ok (
        participants room
          (map (λ name. (name, length (inbox r name), drops r name)) (sort_strings r.members)))

unfoldable pub op_participants : String → String → State → Response
op_participants from room s =
    if (from == "") || (room == "")
    then error_response code_error missing_params
    else list_participants from room (get room s.rooms)

-- opPost
unfoldable pub post_in : ℕ → String → String → String → Option Room → State → State × Response
post_in now from room body none s = (s, error_response code_not_found room_not_found)
post_in now from room body (some r) s =
    if r.archived
    then (s, error_response code_error room_archived)
    else if not (contains from r.members)
    then (s, error_response code_not_found room_not_found)
    else (let (r', s') = post_to true from now body r s in
        (
          write_room_message room (next_message r from now body) (set_room room r' s'),
          ok (room_posted room (suc r.seq)),
        ))

unfoldable pub op_post : ℕ → String → String → String → State → State × Response
op_post now from room body s =
    if (from == "") || (room == "")
    then (s, error_response code_error missing_params)
    else post_in now from room body (get room s.rooms) s

-- roomDrainResponse
unfoldable pub drain_entries : List RoomMessage → ℕ → List RoomEntry
drain_entries msgs dropped = (if ltb 0 dropped then notice dropped ∷ [] else []) ++ map message msgs

abbrev is_empty : List RoomMessage → Bool
is_empty [] = true
is_empty (m ∷ q) = false

-- The reader's mailbox and counter are cleared, here and in the database.
unfoldable pub drain_room : String → String → Room → State → State
unfolding set_room
drain_room from room r s =
    with_queue (mailbox_consume_all from Kind.room room) (
      set_room room (record r { mailbox = put from [] r.mailbox; dropped = put from 0 r.dropped })
        s)

-- roomRead, up to its `select`
unfoldable pub wait_in_room : String → String → Option ChanId → Room → State → State × Outcome
wait_in_room from room (some ch) r s =
    (s, answered (error_response code_error room_read_already_pending))
wait_in_room from room none r s = (
  set_room room (record r { waiter = put from s.next_chan r.waiter })
      (record s { next_chan = suc s.next_chan }),
  blocked s.next_chan,
)

unfoldable pub read_room : String → String → ℕ → Option Room → State → State × Outcome
unfolding drain_room wait_in_room
read_room from room timeout none s = (s, answered (error_response code_not_found room_not_found))
read_room from room timeout (some r) s =
    if not (contains from r.members)
    then (s, answered (error_response code_not_found room_not_found))
    else if not (is_empty (inbox r from))
    then (
      drain_room from room r s,
      answered (ok (room_entries room (drain_entries (inbox r from) (drops r from)))),
    )
    else if eqb timeout 0
    then (s, answered (ok (room_entries room [])))
    else wait_in_room from room (get from r.waiter) r s

-- A timeout that is not positive is 0.
unfoldable pub room_read : String → String → ℕ → State → State × Outcome
room_read from room timeout s = read_room from room timeout (get room s.rooms) s

-- `<-ch`: the value in the buffer, if one is there
unfoldable pub receive : ChanId → List (ChanId × Signal) → Option Signal
receive ch [] = none
receive ch ((c, v) ∷ rest) = if eqb c ch then some v else receive ch rest

unfoldable pub received : ChanId → State → State
received ch s = record s { signals = keep (λ (e : ChanId × Signal). not (eqb e.0 ch)) s.signals }

-- roomRead, the case `first := <-ch`
unfoldable pub wake_room :
    String → String → ChanId → Option Signal → Option Room → State → State × Outcome
unfolding drain_room
wake_room from room ch (some (room_signal first)) (some r) s = (
  drain_room from room r (received ch s),
  answered (ok (room_entries room (drain_entries (first ∷ inbox r from) (drops r from)))),
)
wake_room from room ch _ _ s = (s, blocked ch)

unfoldable pub room_read_wake : String → String → ChanId → State → State × Outcome
room_read_wake from room ch s = wake_room from room ch (receive ch s.signals) (get room s.rooms) s

-- roomRead, the case `<-time.After(timeout)`
unfoldable pub expire_room : String → String → Option Room → State → State
expire_room from room none s = s
expire_room from room (some r) s = set_room room (record r { waiter = Dict.remove from r.waiter }) s

unfoldable pub room_read_timeout : String → String → State → State × Outcome
room_read_timeout from room s =
    (expire_room from room (get room s.rooms) s, answered (ok (room_entries room [])))

-- roomPeek
unfoldable pub peek_room : String → String → Option Room → Response
peek_room from room none = error_response code_not_found room_not_found
peek_room from room (some r) =
    if not (contains from r.members)
    then error_response code_not_found room_not_found
    else ok (room_peeked room (inbox r from) (drops r from))

unfoldable pub room_peek : String → String → State → Response
room_peek from room s = peek_room from room (get room s.rooms)

-- The loop and the slice of roomHistory: later than `since`, then the last `limit`.
unfoldable pub history_after : ℕ → ℕ → List RoomMessage → List RoomMessage
history_after since limit log =
    let out = keep (λ m. not (ltb 0 since && leb m.seq since)) log in
    if ltb 0 limit && ltb limit (length out) then drop (length out - limit) out else out

-- roomHistory
unfoldable pub history_in : String → String → ℕ → ℕ → Option Room → Response
history_in from room since limit none = error_response code_not_found room_not_found
history_in from room since limit (some r) =
    if not (contains from r.members)
    then error_response code_not_found room_not_found
    else ok (room_log room (history_after since limit r.log))

unfoldable pub room_history : String → String → ℕ → ℕ → State → Response
room_history from room since limit s = history_in from room since limit (get room s.rooms)

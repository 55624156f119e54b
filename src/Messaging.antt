-- ===== src/Messaging.antt =====
-- state.go: the handlers that send, read and list messages, of a peer channel or of a room.
pub mod RoomsKept
pub mod Listing
use lalia.Prelude.{
  ℕ, suc, ◌-◌, String, Bool, true, false, not, ◌&&◌, ◌||◌, Option, none, some, List, [], ◌∷◌, map,
  if◌then◌else◌, ltb, leb, ◌==◌, contains, keep, length, drop,
}
use lalia.Prelude.Dict
use lalia.Prelude.Dict.{Dict, get, put}
use lalia.Types.{Message, RoomMessage, Room, Channel, Kind, ChanId, Signal, any_signal, State}
use lalia.Response.{
  Response, ok, error_response, Outcome, answered, blocked, any_message, channel_rows,
  peer_messages, code_error, code_timeout, code_not_found, missing_from, missing_params,
  missing_target, ambiguous_target, not_registered, self_target, caller_not_registered,
  peer_not_registered, channel_not_found, read_any_already_pending, timeout,
}
use lalia.Queue.{mailbox_delete_one, with_queue}
use lalia.Room.{inbox, to_peer_msg}
use lalia.Rooms.{room_read, room_peek, room_history, receive, received, set_room}
use lalia.Channel.{
  channel_key, other, pending, tell, read, peek, set_channel, channel_or_new, list_channels,
}
use lalia.Registry.{Nickname, agent_by_name, resolve_peer_name}

-- opTell, once the peer's name is resolved
tell_peer : ℕ → String → String → Option String → State → State × Response
tell_peer now from body none s = (s, error_response code_not_found peer_not_registered)
tell_peer now from body (some peer) s =
    let (c, s', resp) = tell from now body (channel_or_new from peer s) s in
    (set_channel (channel_key from peer) c s', resp)

abbrev present {ℓ} : {A : Type ℓ} → Option A → Bool
present none = false
present (some a) = true

-- `is_ulid` and `nicknames` are what address resolution takes from outside the state.
module _ (is_ulid : String → Bool) (nicknames : Dict Nickname) where
  -- opTell
  unfoldable pub op_tell : ℕ → String → String → String → State → State × Response
  unfolding tell_peer set_channel channel_or_new
  op_tell now from peer body s =
      if (from == "") || (peer == "")
      then (s, error_response code_error missing_params)
      else if from == peer
      then (s, error_response code_error self_target)
      else if not (present (agent_by_name from s))
      then (s, error_response code_not_found caller_not_registered)
      else tell_peer now from body (resolve_peer_name is_ulid nicknames peer s) s

  read_peer : String → ℕ → Option String → State → State × Outcome
  read_peer from wait none s = (s, answered (error_response code_not_found peer_not_registered))
  read_peer from wait (some peer) s =
      let (c, s', out) = read from wait (channel_or_new from peer s) s in
      (set_channel (channel_key from peer) c s', out)

  -- opRead
  unfoldable pub op_read : String → String → String → ℕ → State → State × Outcome
  unfolding read_peer set_channel channel_or_new
  op_read from peer room wait s =
      if from == ""
      then (s, answered (error_response code_error missing_from))
      else if (peer == "") && (room == "")
      then (s, answered (error_response code_error missing_target))
      else if not (peer == "") && not (room == "")
      then (s, answered (error_response code_error ambiguous_target))
      else if not (peer == "")
      then read_peer from wait (resolve_peer_name is_ulid nicknames peer s) s
      else room_read from room wait s

  peek_channel : String → String → Option Channel → Response
  peek_channel from peer none = ok (peer_messages peer [])
  peek_channel from peer (some c) = peek from c

  peek_peer : String → Option String → State → Response
  peek_peer from none s = error_response code_not_found peer_not_registered
  peek_peer from (some peer) s = peek_channel from peer (get (channel_key from peer) s.channels)

  -- opPeek
  unfoldable pub op_peek : String → String → String → State → Response
  unfolding peek_peer peek_channel
  op_peek from peer room s =
      if from == ""
      then error_response code_error missing_from
      else if (peer == "") && (room == "")
      then error_response code_error missing_target
      else if not (peer == "") && not (room == "")
      then error_response code_error ambiguous_target
      else if not (peer == "")
      then peek_peer from (resolve_peer_name is_ulid nicknames peer s) s
      else room_peek from room s

-- The first pass of opReadAny over the channels, and then over the rooms: the first that has a
-- pending message for the caller, with that message, and the rest of its mailbox.
unfoldable pub first_pending :
    String → Dict Channel → Option (String × Channel × Message × List Message)
first_pending from [] = none
first_pending from ((k, c) ∷ rest) =
    if (c.peer_a == from) || (c.peer_b == from)
    then (elim (pending c from) [ m ∷ q ↦ some (k, c, m, q) | [] ↦ first_pending from rest ])
    else first_pending from rest

unfoldable pub first_room :
    String → Dict Room → Option (String × Room × RoomMessage × List RoomMessage)
first_room from [] = none
first_room from ((k, r) ∷ rest) =
    if contains from r.members
    then (elim (inbox r from) [ m ∷ q ↦ some (k, r, m, q) | [] ↦ first_room from rest ])
    else first_room from rest

wait_any : String → Option ChanId → State → State × Outcome
wait_any from (some ch) s = (s, answered (error_response code_error read_any_already_pending))
wait_any from none s = (
  record s { any_waiter = put from s.next_chan s.any_waiter; next_chan = suc s.next_chan },
  blocked s.next_chan,
)

any_room :
    String → Option (String × Room × RoomMessage × List RoomMessage) → State → State × Outcome
unfolding wait_any
any_room from none s = wait_any from (get from s.any_waiter) s
any_room from (some (k, r, m, q)) s = (
  with_queue (mailbox_delete_one from Kind.room r.name m.seq)
      (set_room k (record r { mailbox = put from q r.mailbox }) s),
  answered (ok (any_message Kind.room r.name (to_peer_msg m))),
)

any_channel : String → Option (String × Channel × Message × List Message) → State → State × Outcome
unfolding any_room first_room
any_channel from none s = any_room from (first_room from s.rooms) s
any_channel from (some (k, c, m, q)) s = (
  with_queue (mailbox_delete_one from Kind.peer (other c from) m.seq)
      (set_channel k (record c { mailbox = put from q c.mailbox }) s),
  answered (ok (any_message Kind.peer (other c from) m)),
)

-- opReadAny, up to its `select`. The timeout, which is then positive, only sets the timer.
unfoldable pub op_read_any : String → State → State × Outcome
unfolding any_channel first_pending
op_read_any from s =
    if from == ""
    then (s, answered (error_response code_error missing_from))
    else any_channel from (first_pending from s.channels) s

-- opReadAny, the case `am := <-ch`
wake_any : ChanId → Option Signal → State → State × Outcome
wake_any ch (some (any_signal kind target msg)) s =
    (received ch s, answered (ok (any_message kind target msg)))
wake_any ch _ s = (s, blocked ch)

unfoldable pub read_any_wake : ChanId → State → State × Outcome
unfolding wake_any
read_any_wake ch s = wake_any ch (receive ch s.signals) s

-- opReadAny, the case `<-time.After(…)`
unfoldable pub read_any_timeout : String → State → State × Outcome
read_any_timeout from s = (
  record s { any_waiter = Dict.remove from s.any_waiter },
  answered (error_response code_timeout timeout),
)

-- sliceHistory
unfoldable pub slice_history : ℕ → ℕ → List Message → List Message
slice_history since limit log =
    let out = keep (λ m. not (ltb 0 since && leb m.seq since)) log in
    if ltb 0 limit && ltb limit (length out) then drop (length out - limit) out else out

history_peer : String → String → ℕ → ℕ → Option Channel → Response
history_peer from peer since limit none = error_response code_not_found channel_not_found
history_peer from peer since limit (some c) =
    if not (c.peer_a == from) && not (c.peer_b == from)
    then error_response code_not_found channel_not_found
    else ok (peer_messages peer (slice_history since limit c.log))

-- opHistory
unfoldable pub op_history : String → String → String → ℕ → ℕ → State → Response
unfolding history_peer slice_history
op_history from peer room since limit s =
    if from == ""
    then error_response code_error missing_from
    else if (peer == "") && (room == "")
    then error_response code_error missing_target
    else if not (peer == "") && not (room == "")
    then error_response code_error ambiguous_target
    else if not (peer == "")
    then history_peer from peer since limit (get (channel_key from peer) s.channels)
    else room_history from room since limit s

-- opChannels
unfoldable pub op_channels : String → State → Response
op_channels from s =
    if from == ""
    then error_response code_error missing_from
    else if not (present (agent_by_name from s))
    then error_response code_not_found not_registered
    else ok (
        channel_rows (
          map (λ (c : Channel). (other c from, length (pending c from), c.seq))
            (list_channels from s.channels)))

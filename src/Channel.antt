-- ===== src/Channel.antt =====
-- channel.go: the channel of a pair of peers, and its map in State.
pub mod RoomsKept
use Prim.Native.String.{◌++◌ as append}
pub mod Laws
pub mod Fifo
use lalia.Prelude.{
  ℕ, suc, String, Bool, true, false, ◌||◌, Option, none, some, List, [], ◌∷◌, ◌++◌, if◌then◌else◌,
  eqb, ◌==◌,
}
use lalia.Prelude.Dict
use lalia.Prelude.Dict.{Dict, get, get_or, put}
use lalia.Types.{
  Message, Channel, ChanId, Kind, Signal, wait_message, wait_error, State, peer_message_file,
  Content,
}
use lalia.Response.{
  Response, ok, error_response, Outcome, answered, blocked, told, peer_message, peer_messages,
  no_data, code_error, code_peer_closed, channel_not_participant, peer_closed, read_failed,
}
use lalia.Queue.{mailbox_append, mailbox_delete_one, with_queue, enqueue_write}
use lalia.Text.{str_lt, safe_path_segment}
use lalia.Room.{send, deliver_any}
use lalia.Rooms.{receive, received}

-- `if a > b { a, b = b, a }`
unfoldable pub sorted_pair : String → String → String × String
sorted_pair a b = if str_lt b a then (b, a) else (a, b)

abbrev nul : String
nul = "\0"

-- channelKey
unfoldable pub channel_key : String → String → String
unfolding sorted_pair
channel_key a b = let (lo, hi) = sorted_pair a b in append lo (append nul hi)

-- newChannel
unfoldable pub new_channel : String → String → Channel
unfolding sorted_pair
new_channel a b =
    let (lo, hi) = sorted_pair a b in
    record { peer_a = lo; peer_b = hi; seq = 0; log = []; mailbox = []; waiter = [] }

-- peerOf
unfoldable pub peer_of : String → Channel → Option String
peer_of name c =
    if name == c.peer_a then some c.peer_b else if name == c.peer_b then some c.peer_a else none

-- other
unfoldable pub other : Channel → String → String
other c from = if from == c.peer_a then c.peer_b else c.peer_a

abbrev pub pending : Channel → String → List Message
pending c j = get_or j [] c.mailbox

-- The message that tell appends to the log.
unfoldable pub next_peer_message : Channel → String → ℕ → String → Message
next_peer_message c from now body = record { seq = suc c.seq; from = from; ts = now; body = body }

-- The file that tell writes: channelDir and the message's name in it.
unfoldable pub write_peer_message : Channel → Message → State → State
write_peer_message c msg s =
    enqueue_write
      (peer_message_file (safe_path_segment c.peer_a) (safe_path_segment c.peer_b) msg.seq
        (safe_path_segment msg.from))
      (Content.peer_message msg) s

-- The last two branches of tell: a read-any took the message, or it goes to the mailbox.
tell_mailbox : Message → String → Channel → State × Bool → Channel × State
tell_mailbox msg to c (s, true) = (c, s)
tell_mailbox msg to c (s, false) = (
  record c { mailbox = put to (get_or to [] c.mailbox ++ (msg ∷ [])) c.mailbox },
  with_queue (mailbox_append to Kind.peer msg.from msg.seq msg.from msg.ts msg.body) s,
)

tell_waiter : Option ChanId → Message → String → Channel → State → Channel × State
unfolding tell_mailbox
tell_waiter (some ch) msg to c s =
    (record c { waiter = Dict.remove to c.waiter }, send ch (wait_message msg) s)
tell_waiter none msg to c s = tell_mailbox msg to c (deliver_any to Kind.peer (other c to) msg s)

tell_to : Option String → String → ℕ → String → Channel → State → Channel × State × Response
unfolding tell_waiter
tell_to none from now body c s = (c, s, error_response code_error channel_not_participant)
tell_to (some to) from now body c s =
    let msg = next_peer_message c from now body in
    let (c', s') =
      tell_waiter (get to c.waiter) msg to (record c { seq = suc c.seq; log = c.log ++ (msg ∷ []) })
        (write_peer_message c msg s) in
    (c', s', ok (told (suc c.seq) to))

-- Channel.tell
unfoldable pub tell : String → ℕ → String → Channel → State → Channel × State × Response
unfolding tell_to peer_of next_peer_message
tell from now body c s = tell_to (peer_of from c) from now body c s

-- Channel.read, up to its `select`. A second read replaces the waiter of the first.
read_pending : String → ℕ → List Message → Channel → State → Channel × State × Outcome
read_pending from timeout (msg ∷ q) c s = (
  record c { mailbox = put from q c.mailbox },
  with_queue (mailbox_delete_one from Kind.peer (other c from) msg.seq) s,
  answered (ok (peer_message msg)),
)
read_pending from timeout [] c s = if eqb timeout 0 then (c, s, answered (ok no_data)) else (
  record c { waiter = put from s.next_chan c.waiter },
  record s { next_chan = suc s.next_chan },
  blocked s.next_chan,
)

read_by : Option String → String → ℕ → Channel → State → Channel × State × Outcome
unfolding read_pending
read_by none from timeout c s = (c, s, answered (error_response code_error channel_not_participant))
read_by (some to) from timeout c s = read_pending from timeout (pending c from) c s

unfoldable pub read : String → ℕ → Channel → State → Channel × State × Outcome
unfolding read_by peer_of
read from timeout c s = read_by (peer_of from c) from timeout c s

-- Channel.read, the case `r := <-ch`
wake_read : ChanId → Option Signal → State → State × Outcome
wake_read ch (some (wait_message msg)) s = (received ch s, answered (ok (peer_message msg)))
wake_read ch (some (wait_error code)) s = (
  received ch s,
  answered (error_response code (if eqb code code_peer_closed then peer_closed else read_failed)),
)
wake_read ch _ s = (s, blocked ch)

unfoldable pub read_wake : ChanId → State → State × Outcome
unfolding wake_read received receive
read_wake ch s = wake_read ch (receive ch s.signals) s

-- Channel.read, the case `<-time.After(timeout)`
unfoldable pub read_timeout : String → Channel → Channel × Outcome
read_timeout from c = (record c { waiter = Dict.remove from c.waiter }, answered (ok no_data))

-- Channel.peek
peek_by : Option String → String → Channel → Response
peek_by none from c = error_response code_error channel_not_participant
peek_by (some to) from c = ok (peer_messages (other c from) (pending c from))

unfoldable pub peek : String → Channel → Response
unfolding peek_by peer_of
peek from c = peek_by (peer_of from c) from c

-- releaseWaiter
unfoldable pub release_to : Option ChanId → String → Channel → State → Channel × State
release_to none name c s = (c, s)
release_to (some ch) name c s =
    (record c { waiter = Dict.remove name c.waiter }, send ch (wait_error code_peer_closed) s)

unfoldable pub release_waiter : String → Channel → State → Channel × State
unfolding release_to send
release_waiter name c s = release_to (get name c.waiter) name c s

unfoldable pub set_channel : String → Channel → State → State
set_channel key c s = record s { channels = put key c s.channels }

-- getOrCreateChannel: the channel, which is in the map from then on
unfoldable pub channel_or_new : String → String → State → Channel
channel_or_new from peer s = elim (get (channel_key from peer) s.channels) [
  | some c ↦ c
  | none ↦ new_channel from peer
]

-- The loop of listChannels
unfoldable pub channels_of : String → Dict Channel → List Channel
channels_of name [] = []
channels_of name ((k, c) ∷ cs) =
    let rest = channels_of name cs in
    if (c.peer_a == name) || (c.peer_b == name) then c ∷ rest else rest

-- sort.Slice by channelKey
unfoldable pub insert_channel : Channel → List Channel → List Channel
insert_channel c [] = c ∷ []
insert_channel c (d ∷ ds) =
    let rest = insert_channel c ds in
    if str_lt (channel_key d.peer_a d.peer_b) (channel_key c.peer_a c.peer_b)
    then d ∷ rest
    else c ∷ d ∷ ds

unfoldable pub sort_channels : List Channel → List Channel
unfolding insert_channel
sort_channels [] = []
sort_channels (c ∷ cs) = insert_channel c (sort_channels cs)

-- listChannels
unfoldable pub list_channels : String → Dict Channel → List Channel
unfolding channels_of sort_channels
list_channels name cs = sort_channels (channels_of name cs)

-- ===== src/Types.antt =====
-- The records of the daemon: protocol.go, and the struct types of state.go, room.go, channel.go,
-- task.go, queue.go and writer.go. A time is a number of nanoseconds.
use lalia.Prelude.{ℕ, ◌/◌, String, Bool, Option, List}
use lalia.Prelude.Dict.{Dict}

-- protocol.go: Message
pub record Message : Type 0 where
  pub seq : ℕ
  pub from : String
  pub ts : ℕ
  pub body : String

-- room.go: RoomMessage
pub record RoomMessage : Type 0 where
  pub seq : ℕ
  pub room : String
  pub from : String
  pub ts : ℕ
  pub body : String

-- queue.go and state.go tag a source as "peer" or "room".
pub data Kind : Type 0 where
  peer room : Kind

-- A Go channel is named by the number of its allocation.
abbrev pub ChanId : Type 0
ChanId = ℕ

-- room.go: Room
pub record Room : Type 0 where
  pub name : String
  pub desc : String
  pub created_by : String
  pub created_at : ℕ
  pub archived : Bool
  pub seq : ℕ
  pub log : List RoomMessage
  pub members : List String
  pub mailbox : Dict (List RoomMessage)
  pub dropped : Dict ℕ
  pub waiter : Dict ChanId

-- channel.go: Channel
pub record Channel : Type 0 where
  pub peer_a : String
  pub peer_b : String
  pub seq : ℕ
  pub log : List Message
  pub mailbox : Dict (List Message)
  pub waiter : Dict ChanId

-- What a send puts into the one-place buffer of a Go channel: a RoomMessage (Room.waiter), a
-- waitResult with its message or with its error (Channel.waiter), or an anyMsg (State.anyWaiter).
pub data Signal : Type 0 where
  room_signal : RoomMessage → Signal
  wait_message : Message → Signal
  wait_error : ℕ → Signal
  any_signal : Kind → String → Message → Signal

-- state.go: Agent
pub record Agent : Type 0 where
  pub agent_id : String
  pub name : String
  pub pubkey : String
  pub role : String
  pub harness : String
  pub model : String
  pub project : String
  pub repo_url : String
  pub repo_root : String
  pub main_repo_root : String
  pub worktree_kind : String
  pub worktree : String
  pub branch : String
  pub cwd : String
  pub pid : ℕ
  pub started_at : ℕ
  pub last_seen_at : ℕ
  pub expires_at : ℕ

-- task.go: Contract, Task, TaskList
pub record Contract : Type 0 where
  pub other_slug : String
  pub note : String

pub record Task : Type 0 where
  pub slug : String
  pub branch : String
  pub brief : String
  pub owned_paths : List String
  pub contracts : List Contract
  pub worktree : String
  pub owner : String
  pub status : String
  pub updated_at : ℕ

pub record TaskList : Type 0 where
  pub project_id : String
  pub supervisor : String
  pub repo_root : String
  pub tasks : List Task
  pub updated_at : ℕ

-- The path of a written file, by its parts, and what the file holds.
pub data FilePath : Type 0 where
  room_message_file : String → ℕ → String → FilePath
  room_definition_file : String → FilePath
  room_members_file : String → FilePath
  peer_message_file : String → String → ℕ → String → FilePath
  task_list_file : String → FilePath
  registry_file : String → FilePath

pub data Content : Type 0 where
  room_message : RoomMessage → Content
  room_definition : String → String → ℕ → String → Content
  room_members : String → List String → Content
  peer_message : Message → Content
  task_list : TaskList → Content
  agent_record : Agent → Content

-- queue.go: queueRow, which is also a row of the tables queue and queue_dead
pub record QueueRow : Type 0 where
  pub id : ℕ
  pub rel_path : FilePath
  pub content : Content
  pub attempts : ℕ

-- queue.go: mailboxRow
pub record MailboxRow : Type 0 where
  pub recipient : String
  pub kind : Kind
  pub target : String
  pub seq : ℕ
  pub from_name : String
  pub ts : ℕ
  pub body : String

-- queue.go: mailboxDroppedRow
pub record MailboxDroppedRow : Type 0 where
  pub recipient : String
  pub kind : Kind
  pub target : String
  pub dropped : ℕ

-- queue.go: roomRecord
pub record RoomRecord : Type 0 where
  pub name : String
  pub desc : String
  pub created_by : String
  pub created_at : ℕ
  pub archived : Bool

-- queue.go: the tables that openQueue creates. A table is the list of its rows in the order of
-- insertion, which is the order of an AUTOINCREMENT id.
pub record Queue : Type 0 where
  pub next_id : ℕ
  pub queue : List QueueRow
  pub queue_dead : List QueueRow
  pub mailbox_rooms : List RoomRecord
  pub mailbox_room_members : List (String × String)
  pub mailbox : List MailboxRow
  pub mailbox_dropped : List MailboxDroppedRow

-- writer.go: writeOp
pub record WriteOp : Type 0 where
  pub queue_id : ℕ
  pub attempts : ℕ
  pub rel_path : FilePath
  pub content : Content

-- The RFC 3339 text of a time, which is what the database and the files hold, has a resolution of
-- one second: the text is read as the second that it names.
unfoldable pub rfc3339 : ℕ → ℕ
rfc3339 t = t / 1000000000

-- state.go: State. The mutexes and the wait group have no part in the sequential model.
-- `next_chan` and `signals` are the Go channels: the next fresh one, and the values that wait in
-- the buffers. `writes` is the channel of that name, as the list of what was sent.
pub record State : Type 0 where
  pub agents : Dict Agent
  pub name_idx : Dict String
  pub channels : Dict Channel
  pub rooms : Dict Room
  pub tasks : Dict TaskList
  pub any_waiter : Dict ChanId
  pub writes : List WriteOp
  pub queue : Option Queue
  pub next_chan : ℕ
  pub signals : List (ChanId × Signal)

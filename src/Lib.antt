-- ===== src/Lib.antt =====
-- The daemon of lalia: agents register, tell each other messages, meet in rooms, and share task lists
-- that a supervisor publishes. One process holds the state in memory (state.go) and serves requests;
-- a SQLite file (queue.go) holds the unread messages, the rooms and the pending file writes.
--
-- The parts and their files, with the paths from the repository's root:
-- - Types: the records of protocol.go, state.go, room.go, channel.go, task.go, queue.go and
--   writer.go. Response: the codes and reasons of protocol.go and the data of the answers.
-- - Queue: the SQL statements of queue.go, each a function on the tables, and enqueueWrite of
--   writer.go. Queue/Frame: what they leave alone. Queue/Rows: the rows of one mailbox.
-- - Text: validRoomName and safePathSegment of room.go, and the library functions on texts that the
--   source calls (sort.Strings, strings.TrimSpace, the order of texts).
-- - Room: the delivery loop that opPost (room.go) and internalPost (task.go) share, deliverAny of
--   state.go, and the removal of members. Rooms: the handlers of room.go. A blocked read is three
--   steps: the call that leaves a waiter, the wake-up, and the timeout.
-- - Channel: channel.go. Messaging: the handlers on peers and opReadAny of state.go.
-- - Registry: the indexes of agents (registry.go), leases (state.go) and addresses (identity.go).
--   Session: opRegister, opUnregister, opRenew and sweep of state.go.
-- - TaskRooms, Task, Supervision, TaskViews, Publish, Worktree: task.go, from the functions on rooms
--   of tasks to opTaskPublish with its use of git worktrees. Supervision has the two handlers with the
--   most conditions, opTaskHandoff and opTaskUnpublish.
-- - Replay: replayMailbox of state.go and loadRooms of registry.go, which rebuild rooms at a start.
-- - Writer: writer.go, which commits the files of the queue to git. Writer/Rows: what one flush and a
--   sequence of starts leave. Writer/Account: runs of requests, commits, crashes and starts.
-- - Signing: signing.go. Dispatch: dispatch of state.go, over all the handlers, with the decoding of
--   arguments in Dispatch/Decode; Views: opAgents, opResolve and opRooms. Dispatch/Gate: who is served.
--   Dispatch/Daemon: the daemon as a sequence of steps. The modules RoomsKept below the handlers' ones
--   say of each handler what that run needs.
-- - Shutdown: opStop and requestStop of state.go.
-- - Task/Once: a claimed row among claims and flips. Rooms/Unrecorded: what internalPost does not
--   record. Run/Sections: where a Copilot prompt file is cut. Messaging/Listing:
--   which channels are listed.
-- - Channel/Fifo: a channel as the pair of queues that its users see.
-- - Names: the names that identity.go suggests and the project ids of project.go. Detect: what
--   identity.go reads from the process. Run: the arguments and prompt files of run.go.
-- - Nicknames: nickname.go, its file and command. Nicknames/Resolving: what an assigned name resolves
--   to. Nicknames/Failing: what a failed run leaves.
-- - Prelude: the names of the libraries in use, and lists, tests and maps. Examples: concrete agents,
--   rooms and tasks, and the theorems at them.
--
-- How the source is read. A handler is a function from the state to the state and the answer; its
-- guards stand in the order of the source. A Go map is an association list, and `range` visits it in
-- the list's order. A pointer to a room, a channel, an agent or a task list is the entry of its map,
-- and a write through the pointer is a write to the entry. The one-place Go channels of blocked reads
-- are numbers, and a send adds to a list of signals. A time is a number of nanoseconds that the caller
-- gives; the texts that are stored keep whole seconds. Numbers have no bound: the sequence numbers of
-- the source are machine integers that a daemon does not exhaust. No definition uses fuel: every loop
-- of the source that is modelled runs over a finite list.
--
-- Parameters: the results of ensureKey (keystore.go, which is not modelled) and of newAgentID, the test
-- isULID, which is the parser of a library, filepath.Abs, git and the file system (a record of their
-- answers), and the messages that the transcript files hold; for signatures the encodings of JSON and
-- hex and ed25519, with the laws that hex decodes what it encoded and that a key verifies what its
-- private key signed; unicode.ToLower; the environment of the process; and what the disk and git answer
-- to a commit. JSON numbers are whole and not negative.
-- Errors of SQLite, which the source drops, do not occur in the model.
--
-- Not modelled: the locks (each critical section is one step), the rendering of files, the key stores,
-- the start of external commands (runHarness), and the client and its command line but for the command
-- of nicknames. The context and the texts of errors are left out.
pub mod Prelude
pub mod Types
pub mod Response
pub mod Queue
pub mod Text
pub mod Room
pub mod Rooms
pub mod TaskRooms
pub mod Channel
pub mod Registry
pub mod Session
pub mod Messaging
pub mod Task
pub mod Supervision
pub mod TaskViews
pub mod Worktree
pub mod Publish
pub mod Replay
pub mod Writer
pub mod Signing
pub mod Views
pub mod Shutdown
pub mod Dispatch
pub mod Names
pub mod Nicknames
pub mod Detect
pub mod Run
pub mod Examples

-- ===== src/Examples.antt =====
-- Concrete agents, rooms, channels and task lists, on which the theorems are applied.
pub mod Rooms
pub mod Tasks
pub mod Peers
pub mod Services
pub mod Processes
use lalia.Prelude.{ℕ, String, false, some, List, [], ◌∷◌}
use lalia.Types.{Agent, Room, RoomMessage, Task, TaskList, State, Queue, MailboxRow}

abbrev pub agent : String → String → String → ℕ → Agent
agent id name role pid = record {
  agent_id = id;
  name = name;
  pubkey = "k";
  role = role;
  harness = "codex";
  model = "";
  project = "proj";
  repo_url = "";
  repo_root = "";
  main_repo_root = "";
  worktree_kind = "";
  worktree = "";
  branch = "";
  cwd = "";
  pid = pid;
  started_at = 0;
  last_seen_at = 0;
  expires_at = 100;
}

abbrev pub sue : Agent
sue = agent "1" "sue" "supervisor" 11

abbrev pub bob : Agent
bob = agent "2" "bob" "worker" 22

abbrev pub fix : Task
fix = record {
  slug = "fix";
  branch = "b";
  brief = "";
  owned_paths = [];
  contracts = [];
  worktree = "";
  owner = "";
  status = "open";
  updated_at = 0;
}

abbrev pub proj : TaskList
proj = record {
  project_id = "proj";
  supervisor = "sue";
  repo_root = "";
  tasks = fix ∷ [];
  updated_at = 0;
}

abbrev pub tables : List MailboxRow → Queue
tables rows = record {
  next_id = 1;
  queue = [];
  queue_dead = [];
  mailbox_rooms = [];
  mailbox_room_members = [];
  mailbox = rows;
  mailbox_dropped = [];
}

abbrev pub fix_room : Room
fix_room = record {
  name = "fix";
  desc = "";
  created_by = "sue";
  created_at = 0;
  archived = false;
  seq = 0;
  log = [];
  members = "sue" ∷ "bob" ∷ [];
  mailbox = [];
  dropped = [];
  waiter = [];
}

-- A daemon with two agents, one room and one open task.
abbrev pub office : State
office = record {
  agents = ("1", sue) ∷ ("2", bob) ∷ [];
  name_idx = ("sue", "1") ∷ ("bob", "2") ∷ [];
  channels = [];
  rooms = ("fix", fix_room) ∷ [];
  tasks = ("proj", proj) ∷ [];
  any_waiter = [];
  writes = [];
  queue = some (tables []);
  next_chan = 7;
  signals = [];
}

abbrev pub note : ℕ → String → String → RoomMessage
note seq from body = record { seq = seq; room = "fix"; from = from; ts = 5; body = body }

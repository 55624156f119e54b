-- ===== src/TaskRooms/Frame.antt =====
-- task.go: the functions on rooms leave the task lists and the agents alone.
use lalia.Prelude.{
  ℕ, ◌≡◌, refl, String, Bool, true, false, Option, none, some, List, [], ◌∷◌, ◌∙◌, arith,
}
use lalia.Prelude.Dict.{get}
use lalia.Types.{Room, State}
use lalia.Queue.{with_queue}
use lalia.Queue.Frame.{tasks-enqueue_write, tasks-with_queue}
use lalia.Room.{persist_room_members}
use lalia.Rooms.{set_room}
use lalia.TaskRooms.{add_rows, ensure_room, ensure_room_with_members, flip_archived, archive_room}

pub tasks-persist_room_members : (r : Room) (s : State) → (persist_room_members r s).tasks ≡ s.tasks
unfolding persist_room_members
tasks-persist_room_members r s = tasks-enqueue_write _ _ s

pub tasks-set_room : (name : String) (r : Room) (s : State) → (set_room name r s).tasks ≡ s.tasks
unfolding set_room
tasks-set_room name r s = refl

tasks-add_rows :
    (room : String) (ms : List String) (s : State) → (add_rows room ms s).tasks ≡ s.tasks
unfolding add_rows
tasks-add_rows room [] s = refl
tasks-add_rows room (m ∷ ms) s = tasks-add_rows room ms _ ∙ tasks-with_queue _ s

tasks-ensure_room :
    (now : ℕ) (slug by : String) (members : List String) (o : Option Room) (s : State)
    → (ensure_room now slug by members o s).0.tasks ≡ s.tasks
unfolding ensure_room
tasks-ensure_room now slug by members none s =
    tasks-add_rows slug _ _ ∙ (tasks-with_queue _ _ ∙ tasks-set_room slug _ s)
tasks-ensure_room now slug by members (some r) s = tasks-add_rows slug _ _ ∙ tasks-set_room slug _ s

pub tasks-ensure_room_with_members :
    (now : ℕ) (slug by : String) (members : List String) (s : State)
    → (ensure_room_with_members now slug by members s).0.tasks ≡ s.tasks
unfolding ensure_room_with_members
tasks-ensure_room_with_members now slug by members s =
    tasks-ensure_room now slug by members (get slug s.rooms) s

tasks-flip_archived :
    (flag : Bool) (slug : String) (o : Option Room) (s : State)
    → (flip_archived flag slug o s).0.tasks ≡ s.tasks
unfolding flip_archived with_queue
tasks-flip_archived flag slug none s = refl
tasks-flip_archived true slug (some r) s =
    ground (arith, tasks-set_room slug (record r { archived = true }) s)
tasks-flip_archived false slug (some r) s =
    ground (arith, tasks-set_room slug (record r { archived = false }) s)

pub tasks-archive_room : (slug : String) (s : State) → (archive_room slug s).0.tasks ≡ s.tasks
unfolding archive_room
tasks-archive_room slug s = tasks-flip_archived true slug (get slug s.rooms) s

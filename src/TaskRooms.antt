-- ===== src/TaskRooms.antt =====
-- task.go: ensureRoomWithMembers, archiveRoom, unarchiveRoom and internalPost.
pub mod Frame
pub mod Valid
use lalia.Prelude.{
  ℕ, String, Bool, true, false, not, Option, none, some, List, [], ◌∷◌, if◌then◌else◌, contains,
  add_name,
}
use lalia.Prelude.Dict.{get}
use lalia.Types.{Room, State}
use lalia.Queue.{room_add_member, room_set_archived, room_upsert, with_queue}
use lalia.Room.{new_room, next_message, post_to, write_room_message}
use lalia.Rooms.{set_room}

-- The loop over `members`, and the names that it added.
unfoldable pub ensure_members : List String → Room → Room × List String
ensure_members [] r = (r, [])
ensure_members (m ∷ ms) r =
    let here = contains m r.members in
    let (r', added) = ensure_members ms (record r { members = add_name m r.members }) in
    (r', if here then added else m ∷ added)

-- roomAddMember for each name
unfoldable pub add_rows : String → List String → State → State
add_rows room [] s = s
add_rows room (m ∷ ms) s = add_rows room ms (with_queue (room_add_member room m) s)

ensure_room : ℕ → String → String → List String → Option Room → State → State × Room
ensure_room now slug created_by members none s =
    let r = (ensure_members members (new_room slug "" created_by now)).0 in
    (
      add_rows slug r.members (with_queue (room_upsert slug "" created_by now) (set_room slug r s)),
      r,
    )
ensure_room now slug created_by members (some r) s =
    let (r', added) = ensure_members members r in (add_rows slug added (set_room slug r' s), r')

-- ensureRoomWithMembers
unfoldable pub ensure_room_with_members : ℕ → String → String → List String → State → State × Room
unfolding ensure_room ensure_members add_rows set_room
ensure_room_with_members now slug created_by members s =
    ensure_room now slug created_by members (get slug s.rooms) s

flip_archived : Bool → String → Option Room → State → State × Bool
flip_archived flag slug none s = (s, false)
flip_archived true slug (some r) s =
    let s' = set_room slug (record r { archived = true }) s in
    if r.archived then (s', false) else (with_queue (room_set_archived slug true) s', true)
flip_archived false slug (some r) s =
    let s' = set_room slug (record r { archived = false }) s in
    if not r.archived then (s', false) else (with_queue (room_set_archived slug false) s', true)

-- archiveRoom
unfoldable pub archive_room : String → State → State × Bool
unfolding flip_archived set_room
archive_room slug s = flip_archived true slug (get slug s.rooms) s

-- unarchiveRoom
unfoldable pub unarchive_room : String → State → State × Bool
unfolding flip_archived set_room
unarchive_room slug s = flip_archived false slug (get slug s.rooms) s

-- internalPost, in the room that is kept under `slug`
unfoldable pub internal_post : ℕ → String → String → String → Room → State → State
unfolding set_room
internal_post now slug from body r s =
    let (r', s') = post_to false from now body r s in
    write_room_message r.name (next_message r from now body) (set_room slug r' s')

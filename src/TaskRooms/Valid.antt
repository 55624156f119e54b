-- ===== src/TaskRooms/Valid.antt =====
-- task.go: the functions on the rooms of tasks keep every room valid.
use lalia.Prelude.{
  ℕ, ◌≡◌, refl, ◌∙◌, String, Bool, true, false, not, Option, none, some, List, [], ◌∷◌, add_name,
  Distinct, if_both,
}
use lalia.Prelude.Dict.{get, put}
use lalia.Types.{Room, State}
use lalia.Queue.Frame.{rooms-with_queue}
use lalia.Room.{persist_room_members, new_room}
use lalia.Room.Invariant.{RoomIsValid, new_room-RoomIsValid}
use lalia.Rooms.{set_room}
use lalia.Rooms.Valid.{
  RoomsValid, room_at, KeepsRooms, put-RoomsValid, join-RoomIsValid, posted-RoomsValid, rooms_frame,
}
use lalia.TaskRooms.{
  ensure_members, add_rows, ensure_room, ensure_room_with_members, flip_archived, archive_room,
  unarchive_room, internal_post,
}

-- A valid room under its name
abbrev pub Fits : String → Room → Type 0
Fits slug r = RoomIsValid r × (r.name ≡ slug)

pub archived-RoomIsValid :
    (b : Bool) (r : Room) → RoomIsValid r → RoomIsValid (record r { archived = b })
archived-RoomIsValid b r v = record {
  distinct = v.distinct;
  bounded = v.bounded;
  ordered = v.ordered;
  logged = v.logged;
}

pub members-RoomIsValid :
    (ms : List String) (r : Room)
    → Distinct ms
    → RoomIsValid r
    → RoomIsValid (record r { members = ms })
members-RoomIsValid ms r d v = record {
  distinct = d;
  bounded = v.bounded;
  ordered = v.ordered;
  logged = v.logged;
}

ensure_members-Fits :
    (slug : String) (ms : List String) (r : Room) → Fits slug r → Fits slug (ensure_members ms r).0
unfolding ensure_members
ensure_members-Fits slug [] r f = f
ensure_members-Fits slug (m ∷ ms) r (v, e) =
    ensure_members-Fits slug ms (record r { members = add_name m r.members })
      (join-RoomIsValid m r v, e)

rooms-add_rows :
    (room : String) (ms : List String) (s : State) → (add_rows room ms s).rooms ≡ s.rooms
unfolding add_rows
rooms-add_rows room [] s = refl
rooms-add_rows room (m ∷ ms) s = rooms-add_rows room ms _ ∙ rooms-with_queue _ s

-- What ensureRoomWithMembers returns is a valid room of the slug.
abbrev pub KeepsRoom : String → State × Room → Type 0
KeepsRoom slug (s, r) = RoomsValid s.rooms × Fits slug r

ensure_room-KeepsRoom :
    (now : ℕ) (slug by : String) (ms : List String) (o : Option Room) (s : State)
    → RoomsValid s.rooms
    → get slug s.rooms ≡ o
    → KeepsRoom slug (ensure_room now slug by ms o s)
unfolding ensure_room
ensure_room-KeepsRoom now slug by ms none s v e =
    let (w, n) =
      ensure_members-Fits slug ms (new_room slug "" by now)
        (new_room-RoomIsValid slug "" by now, unfold new_room in refl) in
    (simp (rooms-add_rows, rooms_frame) (put-RoomsValid slug _ s.rooms v w n), (w, n))
ensure_room-KeepsRoom now slug by ms (some r) s v e =
    let (w, n) = ensure_members-Fits slug ms r (room_at s.rooms v slug r e) in
    (simp (rooms-add_rows, rooms_frame) (put-RoomsValid slug _ s.rooms v w n), (w, n))

pub ensure_room_with_members-KeepsRoom :
    (now : ℕ) (slug by : String) (ms : List String) (s : State)
    → RoomsValid s.rooms
    → KeepsRoom slug (ensure_room_with_members now slug by ms s)
unfolding ensure_room_with_members
ensure_room_with_members-KeepsRoom now slug by ms s v =
    ensure_room-KeepsRoom now slug by ms (get slug s.rooms) s v refl

flip_archived-KeepsRooms :
    (b : Bool) (slug : String) (o : Option Room) (s : State)
    → RoomsValid s.rooms
    → get slug s.rooms ≡ o
    → KeepsRooms (flip_archived b slug o s)
unfolding flip_archived
flip_archived-KeepsRooms b slug none s v e = v
flip_archived-KeepsRooms true slug (some r) s v e =
    let kept : RoomsValid (put slug (record r { archived = true }) s.rooms) =
      put-RoomsValid slug _ s.rooms v (archived-RoomIsValid true r (room_at s.rooms v slug r e).0)
        (room_at s.rooms v slug r e).1 in
    if_both KeepsRooms r.archived (simp rooms_frame kept) (simp rooms_frame kept)
flip_archived-KeepsRooms false slug (some r) s v e =
    let kept : RoomsValid (put slug (record r { archived = false }) s.rooms) =
      put-RoomsValid slug _ s.rooms v (archived-RoomIsValid false r (room_at s.rooms v slug r e).0)
        (room_at s.rooms v slug r e).1 in
    if_both KeepsRooms (not r.archived) (simp rooms_frame kept) (simp rooms_frame kept)

pub archive_room-KeepsRooms :
    (slug : String) (s : State) → RoomsValid s.rooms → KeepsRooms (archive_room slug s)
unfolding archive_room
archive_room-KeepsRooms slug s v = flip_archived-KeepsRooms true slug (get slug s.rooms) s v refl

pub unarchive_room-KeepsRooms :
    (slug : String) (s : State) → RoomsValid s.rooms → KeepsRooms (unarchive_room slug s)
unfolding unarchive_room
unarchive_room-KeepsRooms slug s v = flip_archived-KeepsRooms false slug (get slug s.rooms) s v refl

pub internal_post-RoomsValid :
    (now : ℕ) (slug from body : String) (r : Room) (s : State)
    → RoomsValid s.rooms
    → get slug s.rooms ≡ some r
    → RoomsValid (internal_post now slug from body r s).rooms
unfolding internal_post
internal_post-RoomsValid now slug from body r s v e =
    simp rooms_frame (posted-RoomsValid s v false now from slug body r e)

-- A room that is kept and written
pub stored_room-RoomsValid :
    (slug : String) (r : Room) (s : State)
    → RoomsValid s.rooms
    → Fits slug r
    → RoomsValid (persist_room_members r (set_room slug r s)).rooms
stored_room-RoomsValid slug r s v (w, n) = simp rooms_frame (put-RoomsValid slug r s.rooms v w n)

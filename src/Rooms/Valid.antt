-- ===== src/Rooms/Valid.antt =====
-- room.go and task.go: every handler on rooms keeps every room valid, under its own name.
use lalia.Prelude.{
  ℕ, ◌≡◌, refl, sym, ◌∙◌, ap, subst, String, Bool, true, not, ◌||◌, Option, none, some, [], ◌∷◌,
  ◌==◌, leb, eqb, length, contains, Bool-cases, inl, inr, add_name, add_name-Distinct, if_both,
  arith, eq_iff,
}
use lalia.Prelude.Dict.{Dict, get, put, get_or-put}
use lalia.Types.{Room, ChanId, State, RoomMessage, Signal}
use lalia.Queue.Frame.{rooms-enqueue_write, rooms-with_queue}
use lalia.Room.{
  new_room, inbox, post_to, next_message, write_room_message, persist_room_definition,
  persist_room_members, remove_member,
}
use lalia.Text.{valid_room_name}
use lalia.Room.Signals.{deliver_all-SameState}
use lalia.Room.Invariant.{
  RoomIsValid, new_room-RoomIsValid, post_to-RoomIsValid, post_to-SameRoom, numbered,
  remove_member-RoomIsValid,
}
use lalia.Rooms.{
  set_room, create_room, op_room_create, join_room, op_join, leave_room, op_leave, post_in, op_post,
  drain_room, wait_in_room, read_room, room_read, received, wake_room, room_read_wake, expire_room,
  room_read_timeout, is_empty, receive,
}

abbrev pub RoomsValid : Dict Room → Type 0
RoomsValid [] = Unit
RoomsValid ((k, r) ∷ d) = (RoomIsValid r × (r.name ≡ k)) × RoomsValid d

pub room_at :
    (d : Dict Room)
    → RoomsValid d
    → (k : String) (r : Room) → get k d ≡ some r
    → RoomIsValid r × (r.name ≡ k)
unfolding get
room_at [] v k r e = ground (arith, e)
room_at ((j, w) ∷ d) (here, rest) k r e = elim (Bool-cases (j == k)) [
  | inl same ↦
      let eq : w ≡ r = ground (arith, e, same) in
      (
        subst RoomIsValid eq here.0,
        ap (λ (x : Room). x.name) (sym eq) ∙ (here.1 ∙ (eq_iff j k).0 same),
      )
  | inr other ↦ room_at d rest k r (rw other at e)
]

pub put-RoomsValid :
    (k : String) (r : Room) (d : Dict Room)
    → RoomsValid d
    → RoomIsValid r
    → r.name ≡ k
    → RoomsValid (put k r d)
unfolding put
put-RoomsValid k r [] v vr e = ((vr, e), tt)
put-RoomsValid k r ((j, w) ∷ d) (here, rest) vr e = elim (Bool-cases (j == k)) [
  | inl same ↦ rw same ((vr, e), rest)
  | inr other ↦ rw other (here, put-RoomsValid k r d rest vr e)
]

-- A room that differs in its members, its mailboxes, or its pending reads.
pub join-RoomIsValid :
    (name : String) (r : Room)
    → RoomIsValid r
    → RoomIsValid (record r { members = add_name name r.members })
join-RoomIsValid name r v = record {
  distinct = add_name-Distinct name r.members v.distinct;
  bounded = v.bounded;
  ordered = v.ordered;
  logged = v.logged;
}

drain-RoomIsValid :
    (from : String) (r : Room)
    → RoomIsValid r
    → RoomIsValid (record r { mailbox = put from [] r.mailbox; dropped = put from 0 r.dropped })
drain-RoomIsValid from r v = record {
  distinct = v.distinct;
  bounded = λ j. ground (arith, get_or-put from j [] [] r.mailbox, v.bounded j);
  ordered = λ j. ground (arith, get_or-put from j [] [] r.mailbox, v.ordered j);
  logged = v.logged;
}

waiter-RoomIsValid :
    (w : Dict ChanId) (r : Room) → RoomIsValid r → RoomIsValid (record r { waiter = w })
waiter-RoomIsValid w r v = record {
  distinct = v.distinct;
  bounded = v.bounded;
  ordered = v.ordered;
  logged = v.logged;
}

pub rooms-persist_room_members : (r : Room) (s : State) → (persist_room_members r s).rooms ≡ s.rooms
unfolding persist_room_members
rooms-persist_room_members r s = rooms-enqueue_write _ _ s

pub rooms-persist_room_definition :
    (r : Room) (s : State) → (persist_room_definition r s).rooms ≡ s.rooms
unfolding persist_room_definition
rooms-persist_room_definition r s = rooms-enqueue_write _ _ s

pub rooms-write_room_message :
    (room : String) (m : RoomMessage) (s : State) → (write_room_message room m s).rooms ≡ s.rooms
unfolding write_room_message
rooms-write_room_message room m s = rooms-enqueue_write _ _ s

pub rooms-set_room : (k : String) (r : Room) (s : State) → (set_room k r s).rooms ≡ put k r s.rooms
unfolding set_room
rooms-set_room k r s = refl

pub ruleset rooms_frame = (
  rooms-persist_room_members, rooms-persist_room_definition, rooms-write_room_message,
  rooms-set_room, rooms-with_queue,
)

rooms-post_to :
    (p : Bool) (now : ℕ) (from body : String) (r : Room) (s : State)
    → (post_to p from now body r s).1.rooms ≡ s.rooms
unfolding post_to
rooms-post_to p now from body r s =
    (deliver_all-SameState p (next_message r from now body) r.members _ s).rooms

abbrev pub KeepsRooms {ℓ} : {A : Type ℓ} → State × A → Type 0
KeepsRooms o = RoomsValid o.0.rooms

module _ (s : State) (v : RoomsValid s.rooms) where
  create_room-KeepsRooms :
      (now : ℕ) (from name desc : String) (o : Option Room)
      → KeepsRooms (create_room now from name desc o s)
  unfolding create_room
  create_room-KeepsRooms now from name desc (some r) = v
  create_room-KeepsRooms now from name desc none = simp rooms_frame (
      put-RoomsValid name (new_room name desc from now) s.rooms v
        (new_room-RoomIsValid name desc from now) (unfold new_room in refl))

  pub op_room_create-KeepsRooms :
      (now : ℕ) (from name desc : String) → KeepsRooms (op_room_create now from name desc s)
  unfolding op_room_create
  op_room_create-KeepsRooms now from name desc = if_both KeepsRooms (from == "") v (
      if_both KeepsRooms (not (valid_room_name name)) v
        (create_room-KeepsRooms now from name desc (get name s.rooms)))

  join_room-KeepsRooms :
      (from room : String) (o : Option Room)
      → get room s.rooms ≡ o
      → KeepsRooms (join_room from room o s)
  unfolding join_room
  join_room-KeepsRooms from room none e = v
  join_room-KeepsRooms from room (some r) e = if_both KeepsRooms (contains from r.members) v (
      if_both KeepsRooms (leb 8 (length r.members)) v (
        simp rooms_frame (
          put-RoomsValid room (record r { members = add_name from r.members }) s.rooms v
            (join-RoomIsValid from r (room_at s.rooms v room r e).0)
            (room_at s.rooms v room r e).1)))

  pub op_join-KeepsRooms : (from room : String) → KeepsRooms (op_join from room s)
  unfolding op_join
  op_join-KeepsRooms from room =
      if_both KeepsRooms ((from == "") || (room == "")) v
        (join_room-KeepsRooms from room (get room s.rooms) refl)

  leave_room-KeepsRooms :
      (from room : String) (o : Option Room)
      → get room s.rooms ≡ o
      → KeepsRooms (leave_room from room o s)
  unfolding leave_room
  leave_room-KeepsRooms from room none e = v
  leave_room-KeepsRooms from room (some r) e =
      if_both KeepsRooms (not (contains from r.members)) v (
        simp rooms_frame (
          put-RoomsValid room (remove_member from r) s.rooms v
            (remove_member-RoomIsValid from r (room_at s.rooms v room r e).0)
            (unfold remove_member in (room_at s.rooms v room r e).1)))

  pub op_leave-KeepsRooms : (from room : String) → KeepsRooms (op_leave from room s)
  unfolding op_leave
  op_leave-KeepsRooms from room =
      if_both KeepsRooms ((from == "") || (room == "")) v
        (leave_room-KeepsRooms from room (get room s.rooms) refl)

  -- A post of either kind, in a room of the map.
  pub posted-RoomsValid :
      (p : Bool) (now : ℕ) (from room body : String) (r : Room)
      → get room s.rooms ≡ some r
      → RoomsValid (put room (post_to p from now body r s).0 (post_to p from now body r s).1.rooms)
  posted-RoomsValid p now from room body r e =
      let same = post_to-SameRoom p from now body r s in
      rw (rooms-post_to p now from body r s) (
        put-RoomsValid room (post_to p from now body r s).0 s.rooms v
          (post_to-RoomIsValid p from now body r s (room_at s.rooms v room r e).0)
          (same.name ∙ unfold numbered in (room_at s.rooms v room r e).1))

  post_in-KeepsRooms :
      (now : ℕ) (from room body : String) (o : Option Room)
      → get room s.rooms ≡ o
      → KeepsRooms (post_in now from room body o s)
  unfolding post_in
  post_in-KeepsRooms now from room body none e = v
  post_in-KeepsRooms now from room body (some r) e = if_both KeepsRooms r.archived v (
      if_both KeepsRooms (not (contains from r.members)) v
        (simp rooms_frame (posted-RoomsValid true now from room body r e)))

  pub op_post-KeepsRooms :
      (now : ℕ) (from room body : String) → KeepsRooms (op_post now from room body s)
  unfolding op_post
  op_post-KeepsRooms now from room body =
      if_both KeepsRooms ((from == "") || (room == "")) v
        (post_in-KeepsRooms now from room body (get room s.rooms) refl)

  drain_room-RoomsValid :
      (from room : String) (r : Room)
      → get room s.rooms ≡ some r
      → RoomsValid (drain_room from room r s).rooms
  unfolding drain_room
  drain_room-RoomsValid from room r e = simp rooms_frame (
      put-RoomsValid room _ s.rooms v (drain-RoomIsValid from r (room_at s.rooms v room r e).0)
        (room_at s.rooms v room r e).1)

  wait_in_room-KeepsRooms :
      (from room : String) (w : Option ChanId) (r : Room)
      → get room s.rooms ≡ some r
      → KeepsRooms (wait_in_room from room w r s)
  unfolding wait_in_room
  wait_in_room-KeepsRooms from room (some ch) r e = v
  wait_in_room-KeepsRooms from room none r e = simp rooms_frame (
      put-RoomsValid room _ s.rooms v (waiter-RoomIsValid _ r (room_at s.rooms v room r e).0)
        (room_at s.rooms v room r e).1)

  read_room-KeepsRooms :
      (from room : String) (timeout : ℕ) (o : Option Room)
      → get room s.rooms ≡ o
      → KeepsRooms (read_room from room timeout o s)
  unfolding read_room
  read_room-KeepsRooms from room timeout none e = v
  read_room-KeepsRooms from room timeout (some r) e =
      if_both KeepsRooms (not (contains from r.members)) v (
        if_both KeepsRooms (not (is_empty (inbox r from))) (drain_room-RoomsValid from room r e) (
          if_both KeepsRooms (eqb timeout 0) v
            (wait_in_room-KeepsRooms from room (get from r.waiter) r e)))

  pub room_read-KeepsRooms :
      (from room : String) (timeout : ℕ) → KeepsRooms (room_read from room timeout s)
  unfolding room_read
  room_read-KeepsRooms from room timeout =
      read_room-KeepsRooms from room timeout (get room s.rooms) refl

  expire_room-RoomsValid :
      (from room : String) (o : Option Room)
      → get room s.rooms ≡ o
      → RoomsValid (expire_room from room o s).rooms
  unfolding expire_room
  expire_room-RoomsValid from room none e = v
  expire_room-RoomsValid from room (some r) e = simp rooms_frame (
      put-RoomsValid room _ s.rooms v (waiter-RoomIsValid _ r (room_at s.rooms v room r e).0)
        (room_at s.rooms v room r e).1)

  pub room_read_timeout-KeepsRooms :
      (from room : String) → KeepsRooms (room_read_timeout from room s)
  unfolding room_read_timeout
  room_read_timeout-KeepsRooms from room = expire_room-RoomsValid from room (get room s.rooms) refl

rooms-received : (ch : ChanId) (s : State) → (received ch s).rooms ≡ s.rooms
unfolding received
rooms-received ch s = refl

wake_room-KeepsRooms :
    (from room : String) (ch : ChanId) (g : Option Signal) (o : Option Room) (s : State)
    → RoomsValid s.rooms
    → get room s.rooms ≡ o
    → KeepsRooms (wake_room from room ch g o s)
unfolding wake_room
wake_room-KeepsRooms from room ch (some (Signal.room_signal first)) (some r) s v e =
    drain_room-RoomsValid (received ch s) (rw rooms-received v) from room r (rw rooms-received e)
wake_room-KeepsRooms from room ch g o s v e = v

pub room_read_wake-KeepsRooms :
    (from room : String) (ch : ChanId) (s : State)
    → RoomsValid s.rooms
    → KeepsRooms (room_read_wake from room ch s)
unfolding room_read_wake
room_read_wake-KeepsRooms from room ch s v =
    wake_room-KeepsRooms from room ch (receive ch s.signals) (get room s.rooms) s v refl

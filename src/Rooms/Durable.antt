-- ===== src/Rooms/Durable.antt =====
-- room.go, queue.go: the table mailbox mirrors the mailboxes of a room across posts.
use lalia.Prelude.{
  ℕ, ◌≡◌, refl, sym, ◌∙◌, ap, String, true, false, not, some, List, [], ◌∷◌, map, map-append,
  append-nil, if◌then◌else◌, ◌==◌, leb, eqb, length, drop, keep, contains, Distinct, Bool-cases,
  inl, inr, arith, eq_iff, eq_refl, ◌⊎◌, subst,
}
use lalia.Types.{Room, RoomMessage, State, Kind, Queue}
use lalia.Queue.{mailbox_append, mailbox_drop_oldest, with_queue}
use lalia.Queue.Rows.{rows_for, to_row, rows_for-append, rows_for-drop_oldest, drop_head_row}
use lalia.Room.{
  inbox, head_seq, push_bounded, enqueue_bounded, persist_bounded, deliver_any, deliver_one,
  deliver_all, post_to, next_message, room_mailbox_limit,
}
use lalia.Room.Delivery.{inbox-deliver_one, inbox-enqueue}
use lalia.Room.Invariant.{Rising, RoomIsValid}

-- The database holds, for every name, the rows of its mailbox of the room, in order.
abbrev pub Mirrors : Room → Queue → Type 0
Mirrors r q = (j : String) → rows_for j r.name q ≡ map (to_row j r.name) (inbox r j)

-- What persist_bounded does to the tables.
stored : RoomMessage → String → Room → Queue → Queue
stored msg m r q =
    let old = inbox r m in
    mailbox_append m Kind.room r.name msg.seq msg.from msg.ts msg.body (
      if leb room_mailbox_limit (length old)
      then mailbox_drop_oldest m Kind.room r.name (head_seq old) q
      else q)

-- The database of the state mirrors the room.
abbrev pub MirroredIn : Room → State → Type 0
MirroredIn r s = (q : Queue) × (s.queue ≡ some q) × Mirrors r q

drop_mirror :
    (j name : String) (hi : ℕ) (old : List RoomMessage)
    → Rising 0 hi old
    → keep (λ x. not (eqb x.seq (head_seq old))) (map (to_row j name) old)
      ≡ map (to_row j name) (drop 1 old)
drop_mirror j name hi [] h = unfold keep in refl
drop_mirror j name hi (m ∷ ms) h = drop_head_row j name hi m ms h

name-enqueue : (msg : RoomMessage) (m : String) (r : Room) → (enqueue_bounded msg m r).name ≡ r.name
unfolding enqueue_bounded
name-enqueue msg m r = refl

module _ (msg : RoomMessage) (m : String) (r : Room) (q : Queue) (mir : Mirrors r q) where
  stored_self :
      (hi : ℕ)
      → Rising 0 hi (inbox r m)
      → rows_for m r.name (stored msg m r q) ≡ map (to_row m r.name) (push_bounded msg (inbox r m))
  unfolding stored push_bounded
  stored_self hi rising = elim (Bool-cases (leb room_mailbox_limit (length (inbox r m)))) [
    | inl full ↦
        rw
          (
            full,
            rows_for-append,
            eq_refl m,
            rows_for-drop_oldest,
            eq_refl m,
            mir m,
            drop_mirror m r.name hi (inbox r m) rising,
          )
          (sym (map-append (to_row m r.name) (drop 1 (inbox r m)) (msg ∷ [])))
    | inr free ↦
        rw (free, rows_for-append, eq_refl m, mir m)
          (sym (map-append (to_row m r.name) (inbox r m) (msg ∷ [])))
  ]

  stored_other :
      (j : String)
      → (m == j) ≡ false
      → rows_for j r.name (stored msg m r q) ≡ map (to_row j r.name) (inbox r j)
  unfolding stored
  stored_other j other = elim (Bool-cases (leb room_mailbox_limit (length (inbox r m)))) [
    | inl full ↦
        rw (full, rows_for-append, other, rows_for-drop_oldest, other) (append-nil _ ∙ mir j)
    | inr free ↦ rw (free, rows_for-append, other) (append-nil _ ∙ mir j)
  ]

  -- The mailbox and its rows after one more message.
  enqueue-Mirrors :
      (hi : ℕ) → Rising 0 hi (inbox r m) → Mirrors (enqueue_bounded msg m r) (stored msg m r q)
  enqueue-Mirrors hi rising j = elim (Bool-cases (m == j)) [
    | inl same ↦
        subst (λ k. rows_for k e.name (stored msg m r q) ≡ map (to_row k e.name) (inbox e k))
          ((eq_iff m j).0 same)
          (rw (name-enqueue msg m r, inbox-enqueue msg m m r, eq_refl m) (stored_self hi rising))
    | inr other ↦ rw (name-enqueue msg m r, inbox-enqueue msg m j r, other) (stored_other j other)
  ]
    where
      e : Room
      e = enqueue_bounded msg m r

queue-persist_bounded :
    (msg : RoomMessage) (m : String) (r : Room) (q : Queue) (s : State)
    → s.queue ≡ some q
    → (persist_bounded msg m r s).queue ≡ some (stored msg m r q)
unfolding persist_bounded with_queue stored
queue-persist_bounded msg m r q s h =
    elim (Bool-cases (leb room_mailbox_limit (length (inbox r m)))) [
      | inl full ↦ rw (full, h) refl
      | inr free ↦ rw (free, h) refl
    ]

-- A turn of the loop of opPost leaves the mailboxes and the database alone, or puts the message
-- into both.
deliver_one-cases :
    (msg : RoomMessage) (m : String) (r : Room) (s : State)
    → let o = deliver_one true msg m r s in
      ((o.0.name ≡ r.name) × (o.0.mailbox ≡ r.mailbox) × (o.1.queue ≡ s.queue))
      ⊎ ((o.0 ≡ enqueue_bounded msg m r) × (o.1 ≡ persist_bounded msg m r s))
unfolding deliver_one deliver_any
deliver_one-cases msg m r s = ground arith

Mirrors-cong :
    (r t : Room) (q : Queue) → t.name ≡ r.name → t.mailbox ≡ r.mailbox → Mirrors r q → Mirrors t q
Mirrors-cong r t q n b mir j = rw (n, b) (mir j)

deliver_one-MirroredIn :
    (msg : RoomMessage) (m : String) (r : Room) (s : State) (hi : ℕ)
    → Rising 0 hi (inbox r m)
    → MirroredIn r s
    → MirroredIn (deliver_one true msg m r s).0 (deliver_one true msg m r s).1
deliver_one-MirroredIn msg m r s hi rising (q, has, mir) = elim (deliver_one-cases msg m r s) [
  | inl (n, b, same) ↦ (q, same ∙ has, Mirrors-cong r (deliver_one true msg m r s).0 q n b mir)
  | inr (room_eq, state_eq) ↦ (
    stored msg m r q,
    ap (λ (t : State). t.queue) state_eq ∙ queue-persist_bounded msg m r q s has,
    rw room_eq (enqueue-Mirrors msg m r q mir hi rising),
  )
]

deliver_all-MirroredIn :
    (msg : RoomMessage) (hi : ℕ) (ms : List String) (r : Room) (s : State)
    → Distinct ms
    → ((k : String) → contains k ms ≡ true → Rising 0 hi (inbox r k))
    → MirroredIn r s
    → MirroredIn (deliver_all true msg ms r s).0 (deliver_all true msg ms r s).1
unfolding deliver_all
deliver_all-MirroredIn msg hi [] r s d rising mir = mir
deliver_all-MirroredIn msg hi (m ∷ ms) r s d rising mir =
    deliver_all-MirroredIn msg hi ms (deliver_one true msg m r s).0 (deliver_one true msg m r s).1
      d.1 (λ k h. kept k h)
      (deliver_one-MirroredIn msg m r s hi (rising m (unfold contains in ground (arith, eq_refl m)))
        mir)
  where
    apart : (k : String) → contains k ms ≡ true → (m == k) ≡ false
    apart k h = ground (arith, eq_iff m k, d.0, h)

    kept :
        (k : String) → contains k ms ≡ true → Rising 0 hi (inbox (deliver_one true msg m r s).0 k)
    kept k h =
        rw (inbox-deliver_one msg m k r s true, apart k h)
          (rising k (unfold contains in ground (arith, h)))

deliver_one-unrecorded :
    (msg : RoomMessage) (m : String) (r : Room) (s : State)
    → (deliver_one false msg m r s).1.queue ≡ s.queue
unfolding deliver_one deliver_any
deliver_one-unrecorded msg m r s = ground arith

pub deliver_all-unrecorded :
    (msg : RoomMessage) (ms : List String) (r : Room) (s : State)
    → (deliver_all false msg ms r s).1.queue ≡ s.queue
unfolding deliver_all
deliver_all-unrecorded msg [] r s = refl
deliver_all-unrecorded msg (m ∷ ms) r s =
    deliver_all-unrecorded msg ms _ _ ∙ deliver_one-unrecorded msg m r s

-- A post by opPost keeps the database in step with the mailboxes of the room: if the room is valid
-- and the table held, for every name, exactly the rows of that name's mailbox of the room in order,
-- then the same holds after the post, drops of the oldest message included.
pub post_to-MirroredIn :
    (from : String) (now : ℕ) (body : String) (r : Room) (s : State)
    → RoomIsValid r
    → MirroredIn r s
    → MirroredIn (post_to true from now body r s).0 (post_to true from now body r s).1
unfolding post_to
post_to-MirroredIn from now body r s v (q, has, mir) =
    deliver_all-MirroredIn (next_message r from now body) r.seq r.members _ s v.distinct
      (λ k _. v.ordered k) (q, has, mir)

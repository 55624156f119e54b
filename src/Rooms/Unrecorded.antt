-- ===== src/Rooms/Unrecorded.antt =====
-- task.go: internalPost fills mailboxes that the tables of queue.go do not hold.
use lalia.Prelude.{
  ℕ, ◌≡◌, refl, ◌∙◌, String, false, ◌&&◌, some, map, if◌then◌else◌, contains, eq_refl,
}
use lalia.Prelude.Dict.{get, get-put}
use lalia.Types.{Room, State, Queue, FilePath, Content}
use lalia.Queue.{enqueue_write, enqueue_row, insert}
use lalia.Queue.Frame.{rooms-enqueue_write}
use lalia.Queue.Rows.{rows_for, to_row}
use lalia.Room.{inbox, push_bounded, post_to, next_message, write_room_message}
use lalia.Room.Delivery.{to_mailbox}
use lalia.Room.Invariant.{RoomIsValid, inbox-post_to}
use lalia.Rooms.{set_room}
use lalia.Rooms.Durable.{Mirrors, deliver_all-unrecorded}
use lalia.TaskRooms.{internal_post}

-- A write that is enqueued adds to the table of writes alone.
mailbox-enqueue_write :
    (path : FilePath) (c : Content) (s : State) (q : Queue)
    → s.queue ≡ some q
    → (q' : Queue) × ((enqueue_write path c s).queue ≡ some q')
      × (q'.mailbox ≡ q.mailbox)
      × (q'.mailbox_dropped ≡ q.mailbox_dropped)
unfolding enqueue_write enqueue_row insert
mailbox-enqueue_write path c s q h = rw h (_, refl, refl, refl)

post_to-unrecorded :
    (from : String) (now : ℕ) (body : String) (r : Room) (s : State)
    → (post_to false from now body r s).1.queue ≡ s.queue
unfolding post_to
post_to-unrecorded from now body r s = deliver_all-unrecorded _ r.members _ s

-- If the room is valid and the table mirrors its mailboxes, then after internalPost the message is
-- pushed to the mailbox of each member other than the sender that has no read pending, every other
-- mailbox of the room is as it was, and the table still holds for every name the rows of the mailbox
-- before the post, and the drop counters of the table are as they were.
pub internal_post-unrecorded :
    (now : ℕ) (slug from body : String) (r : Room) (s : State) (q : Queue)
    → RoomIsValid r
    → s.queue ≡ some q
    → Mirrors r q
    → (u : Room) × (q' : Queue) × (get slug (internal_post now slug from body r s).rooms ≡ some u)
      × ((internal_post now slug from body r s).queue ≡ some q')
      × (q'.mailbox_dropped ≡ q.mailbox_dropped)
      × ((j : String) → rows_for j r.name q' ≡ map (to_row j r.name) (inbox r j))
      × ((j : String)
          → inbox u j ≡ (
              if contains j r.members && to_mailbox (next_message r from now body) r s j
              then push_bounded (next_message r from now body) (inbox r j)
              else inbox r j))
unfolding internal_post set_room write_room_message
internal_post-unrecorded now slug from body r s q v has mir =
    let u = (post_to false from now body r s).0 in
    let s' = (post_to false from now body r s).1 in
    let (q', at, mail, drops) =
      mailbox-enqueue_write _ _ (set_room slug u s') q
        (post_to-unrecorded from now body r s ∙ has) in
    (
      u,
      q',
      rw rooms-enqueue_write (get-put slug slug u s'.rooms ∙ rw (eq_refl slug) refl),
      at,
      drops,
      λ j. rw mail (mir j),
      λ j. inbox-post_to false from now body r s j v.distinct,
    )

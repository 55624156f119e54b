-- ===== src/Room/Delivery.antt =====
-- The delivery loops of opPost and internalPost: where a message goes, member by member.
use lalia.Prelude.{
  ℕ, ◌+◌, ◌≡◌, refl, String, Bool, true, false, not, ◌&&◌, Option, none, some, List, [], ◌∷◌,
  if◌then◌else◌, ◌==◌, contains, length, leb, Distinct, arith, eq_iff, ◌++◌, append-nil,
}
use lalia.Prelude.Dict.{get, get_or-put, get-remove}
use lalia.Types.{RoomMessage, Room, State, ChanId, Signal, room_signal, any_signal, Kind}
use lalia.Room.{
  inbox, drops, push_bounded, enqueue_bounded, persist_bounded, to_peer_msg, deliver_one,
  deliver_all, room_mailbox_limit,
}

abbrev pub is_none {ℓ} : {A : Type ℓ} → Option A → Bool
is_none none = true
is_none (some a) = false

-- The message goes to the mailbox of `j`: it is not the sender, and no read of its own is pending.
abbrev pub to_mailbox : RoomMessage → Room → State → String → Bool
to_mailbox msg r s j =
    not (j == msg.from) && (is_none (get j r.waiter) && is_none (get j s.any_waiter))

abbrev pub drop_count : List RoomMessage → ℕ
drop_count q = if leb room_mailbox_limit (length q) then 1 else 0

abbrev pub signal_of : RoomMessage → Room → Option ChanId → Option ChanId → List (ChanId × Signal)
signal_of msg r (some ch) a = (ch, room_signal msg) ∷ []
signal_of msg r none (some ch) = (ch, any_signal Kind.room r.name (to_peer_msg msg)) ∷ []
signal_of msg r none none = []

-- What the turn for a member sends to a pending read of it.
abbrev pub signal_to : RoomMessage → Room → State → String → List (ChanId × Signal)
signal_to msg r s m =
    if m == msg.from then [] else signal_of msg r (get m r.waiter) (get m s.any_waiter)

module _ (msg : RoomMessage) (m j : String) (r : Room) where
  pub inbox-enqueue :
      inbox (enqueue_bounded msg m r) j
      ≡ (if m == j then push_bounded msg (inbox r m) else inbox r j)
  unfolding enqueue_bounded
  inbox-enqueue = get_or-put m j _ _ r.mailbox

  pub drops-enqueue :
      drops (enqueue_bounded msg m r) j
      ≡ (if m == j then drops r j + drop_count (inbox r j) else drops r j)
  unfolding enqueue_bounded
  drops-enqueue = ground (arith, get_or-put m j (drops r m + 1) 0 r.dropped, eq_iff m j)

module _ (msg : RoomMessage) (m j : String) (r : Room) (s : State) where
  pub inbox-deliver_one :
      (p : Bool)
      → inbox (deliver_one p msg m r s).0 j
        ≡ (if (m == j) && to_mailbox msg r s j then push_bounded msg (inbox r j) else inbox r j)
  unfolding deliver_one
  inbox-deliver_one true = ground (arith, inbox-enqueue msg m j r, eq_iff m j)
  inbox-deliver_one false = ground (arith, inbox-enqueue msg m j r, eq_iff m j)

  drops-deliver_one :
      (p : Bool)
      → drops (deliver_one p msg m r s).0 j ≡ (
          if (m == j) && to_mailbox msg r s j
          then drops r j + drop_count (inbox r j)
          else drops r j)
  unfolding deliver_one
  drops-deliver_one true = ground (arith, drops-enqueue msg m j r, eq_iff m j)
  drops-deliver_one false = ground (arith, drops-enqueue msg m j r, eq_iff m j)

  pub waiter-deliver_one :
      (p : Bool) → (m == j) ≡ false → get j (deliver_one p msg m r s).0.waiter ≡ get j r.waiter
  unfolding deliver_one enqueue_bounded
  waiter-deliver_one true h = ground (arith, get-remove m j r.waiter)
  waiter-deliver_one false h = ground (arith, get-remove m j r.waiter)

  pub any_waiter-deliver_one :
      (p : Bool)
      → (m == j) ≡ false
      → get j (deliver_one p msg m r s).1.any_waiter ≡ get j s.any_waiter
  unfolding deliver_one persist_bounded
  any_waiter-deliver_one true h = ground (arith, get-remove m j s.any_waiter)
  any_waiter-deliver_one false h = ground (arith, get-remove m j s.any_waiter)

  -- The signal that a member's pending read is sent, if one is pending.
  pub signals-deliver_one :
      (p : Bool) → (deliver_one p msg m r s).1.signals ≡ s.signals ++ signal_to msg r s m
  unfolding deliver_one persist_bounded to_peer_msg
  signals-deliver_one true = ground (arith, append-nil s.signals)
  signals-deliver_one false = ground (arith, append-nil s.signals)

module _ (p : Bool) (msg : RoomMessage) (j : String) where
  to_mailbox-deliver_one :
      (m : String) (r : Room) (s : State)
      → (m == j) ≡ false
      → to_mailbox msg (deliver_one p msg m r s).0 (deliver_one p msg m r s).1 j
        ≡ to_mailbox msg r s j
  to_mailbox-deliver_one m r s h =
      rw (waiter-deliver_one msg m j r s p h, any_waiter-deliver_one msg m j r s p h)

  -- The loop pushes the message to the mailboxes of the members that wait for nothing, once.
  pub inbox-deliver_all :
      (ms : List String) (r : Room) (s : State)
      → Distinct ms
      → inbox (deliver_all p msg ms r s).0 j ≡ (
          if contains j ms && to_mailbox msg r s j then push_bounded msg (inbox r j) else inbox r j)
  unfolding deliver_all contains
  inbox-deliver_all [] r s d = refl
  inbox-deliver_all (m ∷ ms) r s d =
      let r' = (deliver_one p msg m r s).0 in
      let s' = (deliver_one p msg m r s).1 in
      ground (
        arith,
        inbox-deliver_all ms r' s' d.1,
        inbox-deliver_one msg m j r s p,
        to_mailbox-deliver_one m r s,
        eq_iff m j,
      )

  -- The delivery loop over distinct members counts one dropped message for each member whose full
  -- mailbox it pushes to, and leaves every other counter as it is.
  pub drops-deliver_all :
      (ms : List String) (r : Room) (s : State)
      → Distinct ms
      → drops (deliver_all p msg ms r s).0 j ≡ (
          if contains j ms && to_mailbox msg r s j
          then drops r j + drop_count (inbox r j)
          else drops r j)
  unfolding deliver_all contains
  drops-deliver_all [] r s d = refl
  drops-deliver_all (m ∷ ms) r s d =
      let r' = (deliver_one p msg m r s).0 in
      let s' = (deliver_one p msg m r s).1 in
      ground (
        arith,
        drops-deliver_all ms r' s' d.1,
        drops-deliver_one msg m j r s p,
        inbox-deliver_one msg m j r s p,
        to_mailbox-deliver_one m r s,
        eq_iff m j,
      )

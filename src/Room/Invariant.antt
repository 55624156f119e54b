-- ===== src/Room/Invariant.antt =====
-- What holds of every room of room.go: nobody is in it twice, no mailbox passes its limit, and the
-- sequence numbers rise in each mailbox and in the log.
use lalia.Prelude.{
  ℕ, suc, ◌≤◌, ◌<◌, ◌≡◌, refl, String, Bool, ◌&&◌, List, [], ◌∷◌, ◌++◌, if◌then◌else◌, leb, length,
  drop, contains, Distinct, remove_name-Distinct, Bool-cases, inl, inr, arith,
}
use lalia.Prelude.Dict
use lalia.Prelude.Dict.{get_or-remove}
use lalia.Types.{RoomMessage, Room, State}
use lalia.Room.{
  inbox, push_bounded, new_room, next_message, post_to, remove_member, remove_members,
  room_mailbox_limit,
}
use lalia.Room.Delivery.{to_mailbox, inbox-deliver_all}
use lalia.Room.Signals.{SameRoom, deliver_all-SameRoom}
use lalia.Room.Mailbox.{length-push_bounded}

-- Sequence numbers rise strictly, above `lo` and up to `hi`.
abbrev pub Rising : ℕ → ℕ → List RoomMessage → Type 0
Rising lo hi [] = lo ≤ hi
Rising lo hi (m ∷ q) = (lo < m.seq) × Rising m.seq hi q

pub Rising-wider :
    (lo hi hi' : ℕ) (q : List RoomMessage) → hi ≤ hi' → Rising lo hi q → Rising lo hi' q
Rising-wider lo hi hi' [] h a = omega arith
Rising-wider lo hi hi' (m ∷ q) h a = (a.0, Rising-wider m.seq hi hi' q h a.1)

pub Rising-lower :
    (lo lo' hi : ℕ) (q : List RoomMessage) → lo' ≤ lo → Rising lo hi q → Rising lo' hi q
Rising-lower lo lo' hi [] h a = omega arith
Rising-lower lo lo' hi (m ∷ q) h a = (omega arith, a.1)

pub Rising-append :
    (lo hi : ℕ) (q : List RoomMessage) (m : RoomMessage)
    → Rising lo hi q
    → hi < m.seq
    → Rising lo m.seq (q ++ (m ∷ []))
Rising-append lo hi [] m a h = (omega arith, omega arith)
Rising-append lo hi (x ∷ q) m a h = (a.0, Rising-append x.seq hi q m a.1 h)

Rising-drop : (hi : ℕ) (q : List RoomMessage) → Rising 0 hi q → Rising 0 hi (drop 1 q)
Rising-drop hi [] a = a
Rising-drop hi (m ∷ q) a = Rising-lower m.seq 0 hi q (omega arith) a.1

push_bounded-Rising :
    (hi : ℕ) (q : List RoomMessage) (m : RoomMessage)
    → Rising 0 hi q
    → hi < m.seq
    → Rising 0 m.seq (push_bounded m q)
unfolding push_bounded
push_bounded-Rising hi q m a h = elim (Bool-cases (leb room_mailbox_limit (length q))) [
  | inl full ↦ rw full (Rising-append 0 hi (drop 1 q) m (Rising-drop hi q a) h)
  | inr room ↦ rw room (Rising-append 0 hi q m a h)
]

pub record RoomIsValid (r : Room) : Type 0 where
  pub distinct : Distinct r.members
  pub bounded : (j : String) → length (inbox r j) ≤ room_mailbox_limit
  pub ordered : (j : String) → Rising 0 r.seq (inbox r j)
  pub logged : Rising 0 r.seq r.log

pub new_room-RoomIsValid :
    (name desc created_by : String) (now : ℕ) → RoomIsValid (new_room name desc created_by now)
unfolding new_room contains Dict.get_or
new_room-RoomIsValid name desc created_by now = record {
  distinct = (refl, tt);
  bounded = λ j. omega arith;
  ordered = λ j. omega arith;
  logged = omega arith;
}

-- The room under the next number, before the delivery.
unfoldable pub numbered : ℕ → String → String → Room → Room
numbered now from body r = record r {
  seq = suc r.seq;
  log = r.log ++ (next_message r from now body ∷ []);
}

module _ (p : Bool) (from : String) (now : ℕ) (body : String) (r : Room) (s : State) where
  abbrev after : Room
  after = (post_to p from now body r s).0

  abbrev msg : RoomMessage
  msg = next_message r from now body

  pub post_to-SameRoom : SameRoom (numbered now from body r) after
  unfolding post_to numbered
  post_to-SameRoom = deliver_all-SameRoom p msg r.members (numbered now from body r) s

  -- A post in a room of distinct members pushes its message to the mailbox of each member that is
  -- not the sender and has no read pending, and leaves every other mailbox as it is.
  pub inbox-post_to :
      (j : String)
      → Distinct r.members
      → inbox after j ≡ (
          if contains j r.members && to_mailbox msg r s j
          then push_bounded msg (inbox r j)
          else inbox r j)
  unfolding post_to numbered
  inbox-post_to j d = inbox-deliver_all p msg j r.members (numbered now from body r) s d

  bounded-post_to : (j : String) → RoomIsValid r → length (inbox after j) ≤ room_mailbox_limit
  bounded-post_to j v =
      ground (arith, inbox-post_to j v.distinct, length-push_bounded msg (inbox r j), v.bounded j)

  ordered-post_to : (j : String) → RoomIsValid r → Rising 0 (suc r.seq) (inbox after j)
  unfolding next_message
  ordered-post_to j v = elim (Bool-cases (contains j r.members && to_mailbox msg r s j)) [
    | inl gets ↦
        rw (inbox-post_to j v.distinct, gets)
          (push_bounded-Rising r.seq (inbox r j) msg (v.ordered j) (omega arith))
    | inr not_for_it ↦
        rw (inbox-post_to j v.distinct, not_for_it)
          (Rising-wider 0 r.seq (suc r.seq) (inbox r j) (omega arith) (v.ordered j))
  ]

  -- A post keeps the room valid.
  pub post_to-RoomIsValid : RoomIsValid r → RoomIsValid after
  unfolding numbered next_message
  post_to-RoomIsValid v =
      let same = post_to-SameRoom in
      record {
        distinct = rw same.members v.distinct;
        bounded = λ j. bounded-post_to j v;
        ordered = λ j. rw same.seq (ordered-post_to j v);
        logged = rw (same.log, same.seq) (Rising-append 0 r.seq r.log msg v.logged (omega arith));
      }

pub remove_member-RoomIsValid :
    (name : String) (r : Room) → RoomIsValid r → RoomIsValid (remove_member name r)
unfolding remove_member
remove_member-RoomIsValid name r v = record {
  distinct = remove_name-Distinct name r.members v.distinct;
  bounded = λ j. ground (arith, get_or-remove name j [] r.mailbox, v.bounded j);
  ordered = λ j. ground (arith, get_or-remove name j [] r.mailbox, v.ordered j);
  logged = v.logged;
}

pub remove_members-RoomIsValid :
    (names : List String) (r : Room) → RoomIsValid r → RoomIsValid (remove_members names r).0
unfolding remove_members
remove_members-RoomIsValid [] r v = v
remove_members-RoomIsValid (n ∷ ns) r v = elim (Bool-cases (contains n r.members)) [
  | inl here ↦ rw here (remove_members-RoomIsValid ns _ (remove_member-RoomIsValid n r v))
  | inr away ↦ rw away (remove_members-RoomIsValid ns r v)
]

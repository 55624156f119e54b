-- ===== src/Room/Signals.antt =====
-- The delivery loops of opPost and internalPost: which pending reads they answer, and what they
-- leave alone.
use lalia.Prelude.{
  ◌≡◌, refl, String, Bool, false, List, [], ◌∷◌, ◌++◌, append_assoc, append-nil, contains, Distinct,
  arith, eq_iff, sym,
}
use lalia.Types.{RoomMessage, Room, State, ChanId, Signal}
use lalia.Room.{deliver_one, deliver_all, enqueue_bounded, persist_bounded}
use lalia.Room.Delivery.{signal_to, signals-deliver_one, waiter-deliver_one, any_waiter-deliver_one}

-- What a delivery never changes: the room but for its mailboxes, counters and pending reads, and
-- the state but for the pending reads, the signals and the database.
pub record SameRoom (r t : Room) : Type 0 where
  pub name : t.name ≡ r.name
  pub archived : t.archived ≡ r.archived
  pub seq : t.seq ≡ r.seq
  pub log : t.log ≡ r.log
  pub members : t.members ≡ r.members

pub record SameState (s t : State) : Type 0 where
  pub agents : t.agents ≡ s.agents
  pub name_idx : t.name_idx ≡ s.name_idx
  pub channels : t.channels ≡ s.channels
  pub rooms : t.rooms ≡ s.rooms
  pub tasks : t.tasks ≡ s.tasks
  pub writes : t.writes ≡ s.writes

module _ (p : Bool) (msg : RoomMessage) where
  pub deliver_one-SameRoom :
      (m : String) (r : Room) (s : State) → SameRoom r (deliver_one p msg m r s).0
  unfolding deliver_one enqueue_bounded
  deliver_one-SameRoom m r s = ground arith

  deliver_one-SameState :
      (m : String) (r : Room) (s : State) → SameState s (deliver_one p msg m r s).1
  unfolding deliver_one persist_bounded
  deliver_one-SameState m r s = ground arith

  pub deliver_all-SameRoom :
      (ms : List String) (r : Room) (s : State) → SameRoom r (deliver_all p msg ms r s).0
  unfolding deliver_all
  deliver_all-SameRoom [] r s = ground arith
  deliver_all-SameRoom (m ∷ ms) r s =
      let r' = (deliver_one p msg m r s).0 in
      let s' = (deliver_one p msg m r s).1 in
      ground (arith, deliver_one-SameRoom m r s, deliver_all-SameRoom ms r' s')

  pub deliver_all-SameState :
      (ms : List String) (r : Room) (s : State) → SameState s (deliver_all p msg ms r s).1
  unfolding deliver_all
  deliver_all-SameState [] r s = ground arith
  deliver_all-SameState (m ∷ ms) r s =
      let r' = (deliver_one p msg m r s).0 in
      let s' = (deliver_one p msg m r s).1 in
      ground (arith, deliver_one-SameState m r s, deliver_all-SameState ms r' s')

-- The signals of a whole loop, in its order.
abbrev pub signals_to : RoomMessage → Room → State → List String → List (ChanId × Signal)
signals_to msg r s [] = []
signals_to msg r s (m ∷ ms) = signal_to msg r s m ++ signals_to msg r s ms

module _ (p : Bool) (msg : RoomMessage) where
  signals_to-deliver_one :
      (m : String) (ms : List String) (r : Room) (s : State)
      → contains m ms ≡ false
      → signals_to msg (deliver_one p msg m r s).0 (deliver_one p msg m r s).1 ms
        ≡ signals_to msg r s ms
  unfolding contains
  signals_to-deliver_one m [] r s h = refl
  signals_to-deliver_one m (x ∷ ms) r s h = ground (
    arith,
    signals_to-deliver_one m ms r s,
    waiter-deliver_one msg m x r s p,
    any_waiter-deliver_one msg m x r s p,
    (deliver_one-SameRoom p msg m r s).name,
    eq_iff m x,
    eq_iff x m,
  )

  -- The delivery loop over distinct members sends the message once to each member other than the
  -- sender that has a read pending, to the read of the room in preference to the read of any source,
  -- and sends nothing else.
  pub signals-deliver_all :
      (ms : List String) (r : Room) (s : State)
      → Distinct ms
      → (deliver_all p msg ms r s).1.signals ≡ s.signals ++ signals_to msg r s ms
  unfolding deliver_all
  signals-deliver_all [] r s d = sym (append-nil s.signals)
  signals-deliver_all (m ∷ ms) r s d =
      let r' = (deliver_one p msg m r s).0 in
      let s' = (deliver_one p msg m r s).1 in
      rw
        (
          signals-deliver_all ms r' s' d.1,
          signals-deliver_one msg m m r s p,
          signals_to-deliver_one m ms r s d.0,
        )
        (append_assoc s.signals _ _)

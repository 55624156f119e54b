-- ===== src/Channel/Laws.antt =====
-- channel.go: the key of a pair, and a channel as a pair of queues.
use lalia.Prelude.{
  ℕ, suc, ◌≡◌, refl, String, Bool, true, false, Option, none, some, List, [], ◌∷◌, ◌++◌,
  if◌then◌else◌, ◌==◌, Bool-cases, inl, inr, arith, eq_iff, eq_refl, ◌&&◌, ◌∙◌,
}
use lalia.Prelude.Dict.{get, get_or-put}
use lalia.Types.{Message, Channel, State}
use lalia.Response.{ok, answered, told, peer_message}
use lalia.Text.{str_lt}
use lalia.Queue.Frame.{any_waiter-enqueue_write}
use lalia.Room.{deliver_any}
use lalia.Text.Order.{eq_of_not-lt, not-lt_of_lt}
use lalia.Channel.{
  sorted_pair, channel_key, new_channel, peer_of, other, pending, next_peer_message, tell_waiter,
  tell_to, tell, write_peer_message, read_pending, read_by, read,
}

pub any_waiter-write :
    (c : Channel) (m : Message) (s : State) → (write_peer_message c m s).any_waiter ≡ s.any_waiter
unfolding write_peer_message
any_waiter-write c m s = any_waiter-enqueue_write _ _ s

sorted_pair_comm : (a b : String) → sorted_pair a b ≡ sorted_pair b a
unfolding sorted_pair
sorted_pair_comm a b = elim (Bool-cases (str_lt b a)) [
  | inl below ↦ rw (below, not-lt_of_lt b a below)
  | inr not_below ↦ elim (Bool-cases (str_lt a b)) [
    | inl above ↦ rw (not_below, above)
    | inr level ↦ rw (eq_of_not-lt a b level not_below)
  ]
]

-- The channel of a pair does not depend on who opens it: both peers have one key, and make the same
-- new channel.
pub channel_key_comm :
    (a b : String) → (channel_key a b ≡ channel_key b a) × (new_channel a b ≡ new_channel b a)
unfolding channel_key new_channel
channel_key_comm a b = (rw sorted_pair_comm, rw sorted_pair_comm)

-- In a channel of two different peers, the two are each other's peer, for peerOf and for other
-- alike.
pub peer_of-other :
    (name to : String) (c : Channel)
    → (c.peer_a == c.peer_b) ≡ false
    → peer_of name c ≡ some to
    → (peer_of to c ≡ some name) × (other c to ≡ name) × (other c name ≡ to)
unfolding peer_of other
peer_of-other name to c h e = ground (
  arith,
  eq_iff name c.peer_a,
  eq_iff name c.peer_b,
  eq_iff to c.peer_a,
  eq_iff to c.peer_b,
  eq_iff c.peer_a c.peer_b,
)

abbrev is_none {ℓ} : {A : Type ℓ} → Option A → Bool
is_none none = true
is_none (some a) = false

-- A tell to `to` goes to its mailbox: it has no read pending, of the channel or of any source.
abbrev pub queues : String → Channel → State → Bool
queues to c s = is_none (get to c.waiter) && is_none (get to s.any_waiter)

module _ (to j : String) (m : Message) (c : Channel) (s : State) where
  pending-tell_waiter :
      pending (tell_waiter (get to c.waiter) m to c s).0 j
      ≡ (if (to == j) && queues to c s then pending c j ++ (m ∷ []) else pending c j)
  unfolding tell_waiter deliver_any
  pending-tell_waiter =
      ground (arith, get_or-put to j (pending c to ++ (m ∷ [])) [] c.mailbox, eq_iff to j)

  log-tell_waiter :
      let d = (tell_waiter (get to c.waiter) m to c s).0 in (d.log ≡ c.log) × (d.seq ≡ c.seq)
  unfolding tell_waiter
  log-tell_waiter = ground arith

  peers-tell_waiter :
      let d = (tell_waiter (get to c.waiter) m to c s).0 in
      (d.peer_a ≡ c.peer_a) × (d.peer_b ≡ c.peer_b)
  unfolding tell_waiter
  peers-tell_waiter = ground arith

peer_of-tell :
    (from to name : String) (now : ℕ) (body : String) (c : Channel) (s : State)
    → peer_of from c ≡ some to
    → peer_of name (tell from now body c s).0 ≡ peer_of name c
unfolding tell tell_to
peer_of-tell from to name now body c s e =
    let m = next_peer_message c from now body in
    let d : Channel = record c { seq = suc c.seq; log = c.log ++ (m ∷ []) } in
    let same = peers-tell_waiter to to m d (write_peer_message c m s) in
    rw e (unfold peer_of in rw (same.0, same.1) refl)

-- A tell between the two peers appends the message under the next number to the log, answers with
-- that number, and appends it to the mailbox of the recipient if no read of it is pending; every
-- other mailbox stays as it is.
pub tell_appends :
    (from to : String) (now : ℕ) (body : String) (c : Channel) (s : State)
    → peer_of from c ≡ some to
    → let m = next_peer_message c from now body in
      let after = tell from now body c s in
      (after.2 ≡ ok (told (suc c.seq) to))
      × (after.0.seq ≡ suc c.seq)
      × (after.0.log ≡ c.log ++ (m ∷ []))
      × ((j : String)
          → pending after.0 j
            ≡ (if (to == j) && queues to c s then pending c j ++ (m ∷ []) else pending c j))
unfolding tell tell_to
tell_appends from to now body c s e =
    let m = next_peer_message c from now body in
    let d : Channel = record c { seq = suc c.seq; log = c.log ++ (m ∷ []) } in
    let t = write_peer_message c m s in
    (
      rw e refl,
      rw e (log-tell_waiter to to m d t).1,
      rw e (log-tell_waiter to to m d t).0,
      λ j. rw e (pending-tell_waiter to j m d t ∙ rw (any_waiter-write c m s) refl),
    )

-- A read by a peer with a pending message takes the oldest one, answers with it, and leaves the rest
-- in order and the other mailboxes alone.
pub read_takes :
    (from to : String) (wait : ℕ) (c : Channel) (s : State) (m : Message) (q : List Message)
    → peer_of from c ≡ some to
    → pending c from ≡ m ∷ q
    → let after = read from wait c s in
      (after.2 ≡ answered (ok (peer_message m)))
      × ((j : String) → pending after.0 j ≡ (if from == j then q else pending c j))
unfolding read read_by read_pending
read_takes from to wait c s m q e h =
    (rw (e, h) refl, λ j. rw (e, h) (get_or-put from j q [] c.mailbox))

-- In a channel of two different peers, what is told to a peer with no read pending and an empty
-- mailbox is what its next read returns, after which the mailbox is empty again.
pub read-tell :
    (from to : String) (now wait : ℕ) (body : String) (c : Channel) (s t : State)
    → (c.peer_a == c.peer_b) ≡ false
    → peer_of from c ≡ some to
    → queues to c s ≡ true
    → pending c to ≡ []
    → let told_channel = (tell from now body c s).0 in
      let after = read to wait told_channel t in
      (after.2 ≡ answered (ok (peer_message (next_peer_message c from now body))))
      × (pending after.0 to ≡ [])
read-tell from to now wait body c s t h e idle empty =
    let d = (tell from now body c s).0 in
    let m = next_peer_message c from now body in
    let waiting : pending d to ≡ m ∷ [] =
      (tell_appends from to now body c s e).3 to ∙ rw (eq_refl to, idle, empty) refl in
    let taken =
      read_takes to from wait d t m []
        (peer_of-tell from to to now body c s e ∙ (peer_of-other from to c h e).0) waiting in
    (taken.0, taken.1 to ∙ rw (eq_refl to) refl)

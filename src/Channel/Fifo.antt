-- ===== src/Channel/Fifo.antt =====
-- channel.go: a channel, as long as no read of it is pending, is a pair of queues.
use lalia.Prelude.{
  ℕ, suc, ◌≡◌, refl, sym, ap, ◌∙◌, String, Bool, true, false, not, ◌&&◌, none, some, List, [], ◌∷◌,
  ◌++◌, if◌then◌else◌, ◌==◌, arith, eq_iff, eq_refl,
}
use lalia.Prelude.Dict.{get}
use lalia.Types.{Message, Channel, State}
use lalia.Response.{Outcome, answered, ok, told, peer_message, no_data}
use lalia.Queue.Frame.{any_waiter-with_queue}
use lalia.Room.{deliver_any}
use lalia.Channel.{
  peer_of, pending, next_peer_message, tell_waiter, tell_to, tell, write_peer_message, read_pending,
  read_by, read,
}
use lalia.Channel.Laws.{queues, tell_appends, read_takes, any_waiter-write}

-- A tell to a peer with no read pending
tell-quiet :
    (from to : String) (now : ℕ) (body : String) (c : Channel) (s : State)
    → peer_of from c ≡ some to
    → get to c.waiter ≡ none
    → get to s.any_waiter ≡ none
    → let after = tell from now body c s in
      (after.0.peer_a ≡ c.peer_a)
      × (after.0.peer_b ≡ c.peer_b)
      × (after.0.waiter ≡ c.waiter)
      × (after.1.any_waiter ≡ s.any_waiter)
unfolding tell tell_to tell_waiter deliver_any
tell-quiet from to now body c s e idle idle_any =
    let m = next_peer_message c from now body in
    let same : (write_peer_message c m s).any_waiter ≡ s.any_waiter = any_waiter-write c m s in
    let none_any : get to (write_peer_message c m s).any_waiter ≡ none =
      ap (get to) same ∙ idle_any in
    rw e (rw idle (rw none_any (refl, refl, refl, any_waiter-with_queue _ _ ∙ same)))

-- A read of a message that waits
read-quiet :
    (from to : String) (c : Channel) (s : State) (x : Message) (q : List Message)
    → peer_of from c ≡ some to
    → pending c from ≡ x ∷ q
    → let after = read from 0 c s in
      (after.0.peer_a ≡ c.peer_a)
      × (after.0.peer_b ≡ c.peer_b)
      × (after.0.waiter ≡ c.waiter)
      × (after.1.any_waiter ≡ s.any_waiter)
      × (after.0.seq ≡ c.seq)
unfolding read read_by read_pending
read-quiet from to c s x q e h = rw e (rw h (refl, refl, refl, any_waiter-with_queue _ s, refl))

-- The specification: for each of the two sides the messages that wait for it, and how many were sent
pub record Mail : Type 0 where
  pub sent : ℕ
  pub for_a : List Message
  pub for_b : List Message

-- The side `true` is the peer a.
abbrev pub box : Bool → Mail → List Message
box true m = m.for_a
box false m = m.for_b

abbrev pub with_box : Bool → List Message → Mail → Mail
with_box true q m = record m { for_a = q }
with_box false q m = record m { for_b = q }

-- A send by a side, or a read by a side that does not wait
pub data Call : Type 0 where
  send : Bool → ℕ → String → Call
  take : Bool → Call

module _ (a b : String) where
  abbrev pub name : Bool → String
  name true = a
  name false = b

  abbrev pub spec_take : Bool → List Message → Mail → Mail × Outcome
  spec_take side [] m = (m, answered (ok no_data))
  spec_take side (x ∷ q) m = (with_box side q m, answered (ok (peer_message x)))

  abbrev pub spec_step : Call → Mail → Mail × Outcome
  spec_step (send side now body) m =
      let x : Message = record { seq = suc m.sent; from = name side; ts = now; body = body } in
      (
        record (with_box (not side) (box (not side) m ++ (x ∷ [])) m) { sent = suc m.sent },
        answered (ok (told (suc m.sent) (name (not side)))),
      )
  spec_step (take side) m = spec_take side (box side m) m

  abbrev pub spec_run : List Call → Mail → Mail × List Outcome
  spec_run [] m = (m, [])
  spec_run (c ∷ cs) m =
      let (m', o) = spec_step c m in let (m'', os) = spec_run cs m' in (m'', o ∷ os)

  -- The code: a step on the channel and the state
  abbrev pub code_step : Call → Channel × State → (Channel × State) × Outcome
  code_step (send side now body) (c, s) =
      let (c', s', r) = tell (name side) now body c s in ((c', s'), answered r)
  code_step (take side) (c, s) = let (c', s', o) = read (name side) 0 c s in ((c', s'), o)

  abbrev pub code_run : List Call → Channel × State → (Channel × State) × List Outcome
  code_run [] cs = (cs, [])
  code_run (k ∷ ks) cs =
      let (cs', o) = code_step k cs in let (cs'', os) = code_run ks cs' in (cs'', o ∷ os)

  -- The channel of the peers a and b, in which no read is pending, holds the mail.
  pub record Holds (c : Channel) (s : State) (m : Mail) : Type 0 where
    pub first : c.peer_a ≡ a
    pub second : c.peer_b ≡ b
    pub counted : c.seq ≡ m.sent
    pub boxes : (side : Bool) → pending c (name side) ≡ box side m
    pub no_read : (side : Bool) → get (name side) c.waiter ≡ none
    pub no_read_any : (side : Bool) → get (name side) s.any_waiter ≡ none

  abbrev Simulates : (Channel × State) × Outcome → Mail × Outcome → Type 0
  Simulates ((c, s), o) (m, p) = Holds c s m × (o ≡ p)

  module _ (distinct : (a == b) ≡ false) where
    reversed : (b == a) ≡ false
    reversed = ground (arith, distinct, eq_iff a b, eq_iff b a)

    peer-name :
        (side : Bool) (c : Channel)
        → c.peer_a ≡ a
        → c.peer_b ≡ b
        → peer_of (name side) c ≡ some (name (not side))
    unfolding peer_of
    peer-name true c first second = rw (first, second, eq_refl a) refl
    peer-name false c first second =
        ground (arith, first, second, eq_iff a b, eq_iff b a, eq_refl b)

    boxed :
        (side j : Bool) (x : Message) (m : Mail) (n : ℕ)
        → (if (name side == name j) && true then box j m ++ (x ∷ []) else box j m)
          ≡ box j (record (with_box side (box side m ++ (x ∷ [])) m) { sent = n })
    boxed true true x m n = rw (eq_refl a) refl
    boxed true false x m n = rw distinct refl
    boxed false true x m n = rw reversed refl
    boxed false false x m n = rw (eq_refl b) refl

    unboxed :
        (side j : Bool) (q : List Message) (m : Mail)
        → (if name side == name j then q else box j m) ≡ box j (with_box side q m)
    unboxed true true q m = rw (eq_refl a) refl
    unboxed true false q m = rw distinct refl
    unboxed false true q m = rw reversed refl
    unboxed false false q m = rw (eq_refl b) refl

    sent-with_box : (side : Bool) (q : List Message) (m : Mail) → (with_box side q m).sent ≡ m.sent
    sent-with_box true q m = refl
    sent-with_box false q m = refl

    send-Holds :
        (side : Bool) (now : ℕ) (body : String) (c : Channel) (s : State) (m : Mail)
        → Holds c s m
        → Simulates (code_step (send side now body) (c, s)) (spec_step (send side now body) m)
    unfolding next_peer_message
    send-Holds side now body c s m v =
        let to : String = name (not side) in
        let e : peer_of (name side) c ≡ some to = peer-name side c v.first v.second in
        let (answer, counted, logged, waiting) = tell_appends (name side) to now body c s e in
        let (kept_a, kept_b, kept_waiter, kept_any) =
          tell-quiet (name side) to now body c s e (v.no_read (not side))
            (v.no_read_any (not side)) in
        let idle : queues to c s ≡ true =
          rw (v.no_read (not side), v.no_read_any (not side)) refl in
        (
          record {
            first = kept_a ∙ v.first;
            second = kept_b ∙ v.second;
            counted = counted ∙ ap suc v.counted;
            boxes = λ j.
                waiting (name j)
                ∙ rw (idle, v.boxes j, v.counted) (boxed (not side) j _ m (suc m.sent));
            no_read = λ j. ap (get (name j)) kept_waiter ∙ v.no_read j;
            no_read_any = λ j. ap (get (name j)) kept_any ∙ v.no_read_any j;
          },
          ap answered (answer ∙ ap (λ n. ok (told (suc n) to)) v.counted),
        )

    take-Holds :
        (side : Bool) (c : Channel) (s : State) (m : Mail)
        → Holds c s m
        → Simulates (code_step (take side) (c, s)) (spec_step (take side) m)
    take-Holds side c s m v = go (box side m) (v.boxes side)
      where
        e : peer_of (name side) c ≡ some (name (not side))
        e = peer-name side c v.first v.second

        go :
            (q : List Message)
            → pending c (name side) ≡ q
            → Simulates (code_step (take side) (c, s)) (spec_take side q m)
        go [] h = unfold read read_by read_pending in rw (e, h) (v, refl)
        go (x ∷ q) h =
            let (answer, rest) = read_takes (name side) (name (not side)) 0 c s x q e h in
            let (kept_a, kept_b, kept_waiter, kept_any, kept_seq) =
              read-quiet (name side) (name (not side)) c s x q e h in
            (
              record {
                first = kept_a ∙ v.first;
                second = kept_b ∙ v.second;
                counted = kept_seq ∙ (v.counted ∙ sym (sent-with_box side q m));
                boxes = λ j. rest (name j) ∙ rw (v.boxes j) (unboxed side j q m);
                no_read = λ j. ap (get (name j)) kept_waiter ∙ v.no_read j;
                no_read_any = λ j. ap (get (name j)) kept_any ∙ v.no_read_any j;
              },
              answer,
            )

    step-Holds :
        (k : Call) (c : Channel) (s : State) (m : Mail)
        → Holds c s m
        → Simulates (code_step k (c, s)) (spec_step k m)
    step-Holds (send side now body) c s m v = send-Holds side now body c s m v
    step-Holds (take side) c s m v = take-Holds side c s m v

    -- As long as no read of it is pending, a channel of two different peers implements a pair of
    -- queues: over any sequence of tells and of reads that do not wait, by either peer, the code
    -- gives the answers of the specification, in which each peer takes its messages in the order in
    -- which the other sent them, numbered in one sequence, and the channel holds the mail of the
    -- specification in the end.
    pub code_run-refines :
        (ks : List Call) (c : Channel) (s : State) (m : Mail)
        → Holds c s m
        → Holds (code_run ks (c, s)).0.0 (code_run ks (c, s)).0.1 (spec_run ks m).0
          × ((code_run ks (c, s)).1 ≡ (spec_run ks m).1)
    code_run-refines [] c s m v = (v, refl)
    code_run-refines (k ∷ ks) c s m v =
        let (held, answer) = step-Holds k c s m v in
        let (end, answers) =
          code_run-refines ks (code_step k (c, s)).0.0 (code_step k (c, s)).0.1 (spec_step k m).0
            held in
        (end, rw (answer, answers) refl)

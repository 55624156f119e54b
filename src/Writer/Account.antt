-- ===== src/Writer/Account.antt =====
-- writer.go: over any run of requests, commits, crashes and starts, no write that the queue accepted
-- is lost.
use lalia.Prelude.{
  ℕ, suc, ◌+◌, ◌≡◌, ◌<◌, refl, sym, ◌∙◌, Bool, true, false, not, ◌||◌, Option, none, some, List, [],
  ◌∷◌, ◌++◌, if◌then◌else◌, eqb, keep, map, append-nil, append_assoc, arith,
}
use lalia.Types.{QueueRow, Queue, WriteOp, State, FilePath, Content}
use lalia.Queue.{
  bump_rows, bump_attempts, dead_letter, delete, has_id, enqueue_write, enqueue_row, insert,
}
use lalia.Writer.{
  Disk, commits, settle, fail_row, to_op, flush_rows, flush_pending, commit_write, take_first,
  run_writer,
}

-- The state of the daemon with the log of git, which holds the operations that were committed.
pub data Event : Type 0 where
  request : FilePath → Content → Event
  write : Disk → Event
  crash : Event
  start : (QueueRow → Disk) → Event

abbrev pub logged_of : Option WriteOp → List WriteOp
logged_of none = []
logged_of (some op) = op ∷ []

-- What a flush adds to the log
abbrev pub flushed : (QueueRow → Disk) → List QueueRow → List WriteOp
flushed disk rs = map to_op (keep (λ r. commits (disk r)) rs)

abbrev pub start_queue : (QueueRow → Disk) → Option Queue → Option Queue × List WriteOp
start_queue disk none = (none, [])
start_queue disk (some q) = (some (flush_pending disk q), flushed disk q.queue)

abbrev pub step : Event → State × List WriteOp → State × List WriteOp
step (request path content) (s, log) = (enqueue_write path content s, log)
step (write d) (s, log) = ((run_writer d s).0, log ++ logged_of (run_writer d s).1)
step crash (s, log) = (record s { writes = [] }, log)
step (start disk) (s, log) =
    (record s { queue = (start_queue disk s.queue).0 }, log ++ (start_queue disk s.queue).1)

abbrev pub run : List Event → State × List WriteOp → State × List WriteOp
run [] w = w
run (e ∷ es) w = run es (step e w)

abbrev pub in_log : ℕ → List WriteOp → Bool
in_log id [] = false
in_log id (op ∷ ops) = if eqb op.queue_id id then true else in_log id ops

-- The write of an identifier waits in the queue, was given up, or is committed.
abbrev pub accounted : ℕ → Queue → List WriteOp → Bool
accounted id q log = has_id id q.queue || (has_id id q.queue_dead || in_log id log)

has_id-keep :
    (id j : ℕ) (rs : List QueueRow)
    → has_id j (keep (λ r. not (eqb r.id id)) rs) ≡ (if eqb id j then false else has_id j rs)
unfolding keep
has_id-keep id j [] = ground arith
has_id-keep id j (r ∷ rs) = ground (arith, has_id-keep id j rs)

has_id-bump : (id j : ℕ) (rs : List QueueRow) → has_id j (bump_rows id rs) ≡ has_id j rs
unfolding bump_rows
has_id-bump id j [] = refl
has_id-bump id j (r ∷ rs) = ground (arith, has_id-bump id j rs)

has_id-append : (j : ℕ) (rs ts : List QueueRow) → has_id j (rs ++ ts) ≡ (has_id j rs || has_id j ts)
has_id-append j [] ts = refl
has_id-append j (r ∷ rs) ts = ground (arith, has_id-append j rs ts)

in_log-append :
    (j : ℕ) (ops more : List WriteOp) → in_log j (ops ++ more) ≡ (in_log j ops || in_log j more)
in_log-append j [] more = refl
in_log-append j (op ∷ ops) more = ground (arith, in_log-append j ops more)

-- One operation that is settled, with what it adds to the log.
settle-accounted :
    (done : Bool) (op : WriteOp) (j : ℕ) (q : Queue) (log : List WriteOp)
    → accounted j q log ≡ true
    → accounted j (settle done op q) (log ++ (if done then op ∷ [] else [])) ≡ true
unfolding settle fail_row delete dead_letter bump_attempts
settle-accounted done op j q log h = ground (
  arith,
  has_id-keep op.queue_id j q.queue,
  has_id-keep op.queue_id j (bump_rows op.queue_id q.queue),
  has_id-bump op.queue_id j q.queue,
  has_id-append j q.queue_dead (
      record {
        id = op.queue_id;
        rel_path = op.rel_path;
        content = op.content;
        attempts = op.attempts + 1;
      }
      ∷ []),
  in_log-append j log (if done then op ∷ [] else []),
)

next_id-settle : (done : Bool) (op : WriteOp) (q : Queue) → (settle done op q).next_id ≡ q.next_id
unfolding settle fail_row delete dead_letter bump_attempts
next_id-settle done op q = ground arith

flushed-cons :
    (disk : QueueRow → Disk) (r : QueueRow) (rs : List QueueRow)
    → flushed disk (r ∷ rs) ≡ (if commits (disk r) then to_op r ∷ [] else []) ++ flushed disk rs
unfolding keep
flushed-cons disk r rs = ground arith

flush_rows-accounted :
    (disk : QueueRow → Disk) (j : ℕ) (rs : List QueueRow) (q : Queue) (log : List WriteOp)
    → accounted j q log ≡ true
    → accounted j (flush_rows disk rs q) (log ++ flushed disk rs) ≡ true
unfolding flush_rows
flush_rows-accounted disk j [] q log h = unfold keep in rw (append-nil log) h
flush_rows-accounted disk j (r ∷ rs) q log h =
    let done = commits (disk r) in
    let more = if done then to_op r ∷ [] else [] in
    rw (flushed-cons disk r rs, sym (append_assoc log more (flushed disk rs)))
      (flush_rows-accounted disk j rs (settle done (to_op r) q) (log ++ more)
        (settle-accounted done (to_op r) j q log h))

next_id-flush_rows :
    (disk : QueueRow → Disk) (rs : List QueueRow) (q : Queue)
    → (flush_rows disk rs q).next_id ≡ q.next_id
unfolding flush_rows
next_id-flush_rows disk [] q = refl
next_id-flush_rows disk (r ∷ rs) q = next_id-flush_rows disk rs _ ∙ next_id-settle _ _ q

-- The queue is open, and each identifier that it gave is accounted for.
abbrev pub AllAccounted : State × List WriteOp → Type 0
AllAccounted (s, log) =
    (q : Queue) × (s.queue ≡ some q) × ((j : ℕ) → 0 < j → j < q.next_id → accounted j q log ≡ true)

logged_of-if :
    (b : Bool) (op : WriteOp)
    → logged_of (if b then some op else none) ≡ (if b then op ∷ [] else [])
logged_of-if true op = refl
logged_of-if false op = refl

-- A new write takes the next identifier, and waits in the queue.
insert-accounted :
    (path : FilePath) (content : Content) (j : ℕ) (q : Queue) (log : List WriteOp)
    → ((j < q.next_id) → accounted j q log ≡ true)
    → j < suc q.next_id
    → accounted j (insert path content q).0 log ≡ true
unfolding insert
insert-accounted path content j q log all high = ground (
  arith,
  all,
  has_id-append j q.queue
      (record { id = q.next_id; rel_path = path; content = content; attempts = 0 } ∷ []),
)

take_first-AllAccounted :
    (d : Disk) (ops : List WriteOp) (s : State) (log : List WriteOp)
    → AllAccounted (s, log)
    → AllAccounted ((take_first d ops s).0, log ++ logged_of (take_first d ops s).1)
unfolding take_first commit_write
take_first-AllAccounted d [] s log (q, has, all) =
    (q, has, λ j low high. rw (append-nil log) (all j low high))
take_first-AllAccounted d (op ∷ ops) s log (q, has, all) = (
  settle (commits d) op q,
  rw has refl,
  λ j low high.
      rw (has, logged_of-if)
        (settle-accounted (commits d) op j q log (all j low (rw next_id-settle at high))),
)

step-AllAccounted :
    (e : Event) (w : State × List WriteOp) → AllAccounted w → AllAccounted (step e w)
step-AllAccounted (request path content) (s, log) (q, has, all) = (
  (insert path content q).0,
  unfold enqueue_write enqueue_row in rw has refl,
  λ j low high. insert-accounted path content j q log (all j low) (unfold insert in high),
)
step-AllAccounted (write d) (s, log) a =
    unfold run_writer in take_first-AllAccounted d s.writes s log a
step-AllAccounted crash (s, log) a = a
step-AllAccounted (start disk) (s, log) (q, has, all) = (
  flush_pending disk q,
  rw has refl,
  λ j low high. rw has (
      unfold flush_pending in
      flush_rows-accounted disk j q.queue q log
        (all j low (unfold flush_pending in rw next_id-flush_rows at high))),
)

-- From an open queue in which every identifier is accounted for, after any run of requests, commits,
-- crashes and starts the same holds: each write that the queue accepted is committed, waits in the
-- queue, or lies in the dead letters.
pub run-AllAccounted :
    (es : List Event) (w : State × List WriteOp) → AllAccounted w → AllAccounted (run es w)
run-AllAccounted [] w a = a
run-AllAccounted (e ∷ es) w a = run-AllAccounted es (step e w) (step-AllAccounted e w a)

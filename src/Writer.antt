-- ===== src/Writer.antt =====
-- writer.go: the writer that commits files to git, and the flush of what a crash left behind.
pub mod Rows
pub mod Account
use lalia.Prelude.{ℕ, ◌+◌, Bool, ◌&&◌, Option, none, some, List, [], ◌∷◌, if◌then◌else◌, leb, eqb}
use lalia.Types.{QueueRow, Queue, WriteOp, State}
use lalia.Queue.{bump_attempts, dead_letter, delete}

abbrev pub max_attempts : ℕ
max_attempts = 3

-- What the file system and git answer during one commitWrite: os.MkdirAll, os.WriteFile, `git add`
-- and `git commit`.
pub record Disk : Type 0 where
  pub mkdir_ok : Bool
  pub write_ok : Bool
  pub add_ok : Bool
  pub commit_ok : Bool

-- The four steps of commitWrite up to the first that fails
unfoldable pub commits : Disk → Bool
commits d = d.mkdir_ok && (d.write_ok && (d.add_ok && d.commit_ok))

-- The closure `fail` of commitWrite, on a row of the queue
unfoldable pub fail_row : WriteOp → Queue → Queue
fail_row op q =
    let q' = bump_attempts op.queue_id q in
    let attempts = op.attempts + 1 in
    if leb max_attempts attempts
    then dead_letter
        (record {
          id = op.queue_id;
          rel_path = op.rel_path;
          content = op.content;
          attempts = attempts;
        })
        q'
    else q'

-- commitWrite: whether git has the file, and the queue after it. The identifier 0 stands for an
-- operation that is not in the queue.
unfoldable pub settle : Bool → WriteOp → Queue → Queue
unfolding fail_row
settle done op q =
    if eqb op.queue_id 0 then q else if done then delete op.queue_id q else fail_row op q

unfoldable pub commit_write : Disk → WriteOp → Option Queue → Option Queue × Bool
unfolding commits
commit_write d op none = (none, commits d)
commit_write d op (some q) = (some (settle (commits d) op q), commits d)

-- The operation that flushPendingWrites makes of a row
unfoldable pub to_op : QueueRow → WriteOp
to_op r = record {
  queue_id = r.id;
  attempts = r.attempts;
  rel_path = r.rel_path;
  content = r.content;
}

-- The loop of flushPendingWrites over the rows of `pending`; `disk` is what the system answers for
-- each row.
unfoldable pub flush_rows : (QueueRow → Disk) → List QueueRow → Queue → Queue
flush_rows disk [] q = q
flush_rows disk (r ∷ rs) q = flush_rows disk rs (settle (commits (disk r)) (to_op r) q)

unfoldable pub flush_pending : (QueueRow → Disk) → Queue → Queue
flush_pending disk q = flush_rows disk q.queue q

unfoldable pub take_first : Disk → List WriteOp → State → State × Option WriteOp
take_first d [] s = (s, none)
take_first d (op ∷ ops) s =
    let (q, done) = commit_write d op s.queue in
    (record s { writes = ops; queue = q }, if done then some op else none)

-- The loop of runWriter: the operation that is first in the channel
unfoldable pub run_writer : Disk → State → State × Option WriteOp
unfolding take_first
run_writer d s = take_first d s.writes s

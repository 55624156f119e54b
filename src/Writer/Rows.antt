-- ===== src/Writer/Rows.antt =====
-- writer.go: what one flush does to the rows of the queue.
use lalia.Prelude.{
  ℕ, ◌+◌, ◌≡◌, ◌<◌, ◌≤◌, refl, sym, ◌∙◌, ap, Bool, true, false, not, ◌&&◌, inl, inr, append-nil,
  append_assoc, List, [], ◌∷◌, ◌++◌, if◌then◌else◌, leb, ltb, eqb, keep, keep-append, map,
  Bool-cases, arith,
}
use lalia.Types.{QueueRow, Queue}
use lalia.Queue.{bump_rows, bump_attempts, dead_letter, delete}
use lalia.Writer.{max_attempts, Disk, commits, settle, fail_row, to_op, flush_rows, flush_pending}

-- The rows stand in the order of their ids, which are positive.
abbrev pub Ascending : ℕ → List QueueRow → Type 0
Ascending lo [] = Unit
Ascending lo (r ∷ rs) = (lo < r.id) × Ascending r.id rs

abbrev pub bumped : QueueRow → QueueRow
bumped r = record r { attempts = r.attempts + 1 }

-- A row stays for the next start if its commit failed for less than the third time.
abbrev pub stays : (QueueRow → Disk) → QueueRow → Bool
stays disk r = not (commits (disk r)) && ltb (r.attempts + 1) max_attempts

abbrev pub retried : (QueueRow → Disk) → List QueueRow → List QueueRow
retried disk rs = map bumped (keep (stays disk) rs)

abbrev without : ℕ → QueueRow → Bool
without id r = not (eqb r.id id)

keep-above :
    (id lo : ℕ) (rs : List QueueRow) → id ≤ lo → Ascending lo rs → keep (without id) rs ≡ rs
unfolding keep
keep-above id lo [] h a = refl
keep-above id lo (r ∷ rs) h a = ground (arith, keep-above id r.id rs, a.1)

bump_rows-above :
    (id lo : ℕ) (rs : List QueueRow) → id ≤ lo → Ascending lo rs → bump_rows id rs ≡ rs
unfolding bump_rows
bump_rows-above id lo [] h a = refl
bump_rows-above id lo (r ∷ rs) h a = ground (arith, bump_rows-above id r.id rs, a.1)

-- Rows with smaller ids, which were settled before.
abbrev Below : ℕ → List QueueRow → Type 0
Below id [] = Unit
Below id (r ∷ rs) = (r.id < id) × Below id rs

Below-wider : (id j : ℕ) (rs : List QueueRow) → id ≤ j → Below id rs → Below j rs
Below-wider id j [] h b = tt
Below-wider id j (r ∷ rs) h b = (omega arith, Below-wider id j rs h b.1)

Below-append : (id : ℕ) (rs ts : List QueueRow) → Below id rs → Below id ts → Below id (rs ++ ts)
Below-append id [] ts b c = c
Below-append id (r ∷ rs) ts b c = (b.0, Below-append id rs ts b.1 c)

keep-Below : (id : ℕ) (rs : List QueueRow) → Below id rs → keep (without id) rs ≡ rs
unfolding keep
keep-Below id [] b = refl
keep-Below id (r ∷ rs) b = ground (arith, keep-Below id rs, b.0)

bump_rows-Below : (id : ℕ) (rs : List QueueRow) → Below id rs → bump_rows id rs ≡ rs
unfolding bump_rows
bump_rows-Below id [] b = refl
bump_rows-Below id (r ∷ rs) b = ground (arith, bump_rows-Below id rs, b.0)

bump_rows-append :
    (id : ℕ) (rs ts : List QueueRow) → bump_rows id (rs ++ ts) ≡ bump_rows id rs ++ bump_rows id ts
unfolding bump_rows
bump_rows-append id [] ts = refl
bump_rows-append id (r ∷ rs) ts =
    ap (λ xs. (if eqb r.id id then bumped r else r) ∷ xs) (bump_rows-append id rs ts)

module _ (r : QueueRow) (done rs : List QueueRow) (below : Below r.id done)
    (above : Ascending r.id rs) where
  without-row : keep (without r.id) (done ++ (r ∷ rs)) ≡ done ++ rs
  without-row =
      keep-append (without r.id) done (r ∷ rs)
      ∙ rw (keep-Below r.id done below) (unfold keep in ground (arith, keep-above r.id r.id rs))

  bump-row : bump_rows r.id (done ++ (r ∷ rs)) ≡ done ++ (bumped r ∷ rs)
  bump-row =
      bump_rows-append r.id done (r ∷ rs)
      ∙ rw (bump_rows-Below r.id done below)
          (unfold bump_rows in ground (arith, bump_rows-above r.id r.id rs))

  without-bumped : keep (without r.id) (done ++ (bumped r ∷ rs)) ≡ done ++ rs
  without-bumped =
      keep-append (without r.id) done (bumped r ∷ rs)
      ∙ rw (keep-Below r.id done below) (unfold keep in ground (arith, keep-above r.id r.id rs))

  settle-row :
      (disk : QueueRow → Disk) (q : Queue)
      → 0 < r.id
      → q.queue ≡ done ++ (r ∷ rs)
      → (settle (commits (disk r)) (to_op r) q).queue ≡ (done ++ retried disk (r ∷ [])) ++ rs
  unfolding settle fail_row to_op delete dead_letter bump_attempts keep
  settle-row disk q pos h =
      let kept : eqb r.id 0 ≡ false = ground arith in
      elim (Bool-cases (commits (disk r))) [
        | inl ok ↦ rw (kept, ok, append-nil done) (ap (keep (without r.id)) h ∙ without-row)
        | inr failed ↦ elim (Bool-cases (leb max_attempts (r.attempts + 1))) [
          | inl last ↦
              let given_up : ltb (r.attempts + 1) 3 ≡ false = ground arith in
              rw (kept, failed, last, given_up, append-nil done)
                (ap (λ xs. keep (without r.id) (bump_rows r.id xs)) h
                  ∙ ap (keep (without r.id)) bump-row
                  ∙ without-bumped)
          | inr again ↦
              let left : ltb (r.attempts + 1) 3 ≡ true = ground arith in
              rw (kept, failed, again, left)
                (ap (bump_rows r.id) h ∙ bump-row ∙ sym (append_assoc done (bumped r ∷ []) rs))
        ]
      ]

-- The rows that are left of one row have its id.
Below-retried :
    (disk : QueueRow → Disk) (r : QueueRow) (j : ℕ) → r.id < j → Below j (retried disk (r ∷ []))
unfolding keep
Below-retried disk r j h = ground arith

retried-cons :
    (disk : QueueRow → Disk) (r : QueueRow) (rs : List QueueRow)
    → retried disk (r ∷ rs) ≡ retried disk (r ∷ []) ++ retried disk rs
unfolding keep
retried-cons disk r rs = ground arith

flush_rows-queue :
    (disk : QueueRow → Disk) (rs done : List QueueRow) (lo : ℕ) (q : Queue)
    → Ascending lo rs
    → Below (lo + 1) done
    → q.queue ≡ done ++ rs
    → (flush_rows disk rs q).queue ≡ done ++ retried disk rs
unfolding flush_rows
flush_rows-queue disk [] done lo q a b h = unfold keep in h
flush_rows-queue disk (r ∷ rs) done lo q a b h =
    flush_rows-queue disk rs (done ++ retried disk (r ∷ [])) r.id
      (settle (commits (disk r)) (to_op r) q) a.1
      (Below-append (r.id + 1) done (retried disk (r ∷ []))
        (Below-wider (lo + 1) (r.id + 1) done (omega arith) b)
        (Below-retried disk r (r.id + 1) (omega arith)))
      (settle-row r done rs (Below-wider (lo + 1) r.id done (omega arith) b) a.1 disk q
        (omega arith) h)
    ∙ append_assoc done (retried disk (r ∷ [])) (retried disk rs)
    ∙ ap (λ xs. done ++ xs) (sym (retried-cons disk r rs))

-- If the rows of the queue stand in the order of their positive ids, a flush keeps, in order and
-- with one more attempt each, exactly the rows whose commit failed for less than the third time.
pub flush_pending-retried :
    (disk : QueueRow → Disk) (q : Queue)
    → Ascending 0 q.queue
    → (flush_pending disk q).queue ≡ retried disk q.queue
unfolding flush_pending
flush_pending-retried disk q a = flush_rows-queue disk q.queue [] 0 q a tt refl

Ascending-lower : (lo lo' : ℕ) (rs : List QueueRow) → lo' ≤ lo → Ascending lo rs → Ascending lo' rs
Ascending-lower lo lo' [] h a = tt
Ascending-lower lo lo' (r ∷ rs) h a = (omega arith, a.1)

retried-Ascending :
    (disk : QueueRow → Disk) (lo : ℕ) (rs : List QueueRow)
    → Ascending lo rs
    → Ascending lo (retried disk rs)
unfolding keep
retried-Ascending disk lo [] a = tt
retried-Ascending disk lo (r ∷ rs) a =
    let later = retried-Ascending disk r.id rs a.1 in
    elim (Bool-cases (stays disk r)) [
      | inl left ↦ rw left (a.0, later)
      | inr gone ↦ rw gone (Ascending-lower r.id lo (retried disk rs) (omega arith) later)
    ]

-- Every row was tried at least `n` times.
abbrev Tried : ℕ → List QueueRow → Type 0
Tried n [] = Unit
Tried n (r ∷ rs) = (n ≤ r.attempts) × Tried n rs

retried-Tried :
    (disk : QueueRow → Disk) (n : ℕ) (rs : List QueueRow)
    → Tried n rs
    → Tried (n + 1) (retried disk rs)
unfolding keep
retried-Tried disk n [] t = tt
retried-Tried disk n (r ∷ rs) t =
    let later = retried-Tried disk n rs t.1 in
    elim (Bool-cases (stays disk r)) [
      | inl left ↦ rw left (omega arith, later)
      | inr gone ↦ rw gone later
    ]

retried-done : (disk : QueueRow → Disk) (rs : List QueueRow) → Tried 2 rs → retried disk rs ≡ []
unfolding keep
retried-done disk [] t = refl
retried-done disk (r ∷ rs) t = ground (arith, retried-done disk rs, t.0)

Tried-zero : (rs : List QueueRow) → Tried 0 rs
Tried-zero [] = tt
Tried-zero (r ∷ rs) = (omega arith, Tried-zero rs)

-- The starts of the daemon one after the other, each with its own answers of the system.
abbrev pub boots : List (QueueRow → Disk) → Queue → Queue
boots [] q = q
boots (d ∷ ds) q = boots ds (flush_pending d q)

-- The replays of pending writes end: if the rows of the queue stand in the order of their positive
-- ids, then after three starts the queue is empty, whatever the file system and git answered at
-- each.
pub boots-empty :
    (first second third : QueueRow → Disk) (q : Queue)
    → Ascending 0 q.queue
    → (boots (first ∷ second ∷ third ∷ []) q).queue ≡ []
boots-empty first second third q a =
    let one = flush_pending first q in
    let two = flush_pending second one in
    let e1 = flush_pending-retried first q a in
    let a1 : Ascending 0 one.queue = rw e1 (retried-Ascending first 0 q.queue a) in
    let e2 = flush_pending-retried second one a1 in
    let a2 : Ascending 0 two.queue = rw e2 (retried-Ascending second 0 one.queue a1) in
    let t1 : Tried 1 one.queue = rw e1 (retried-Tried first 0 q.queue (Tried-zero q.queue)) in
    let t2 : Tried 2 two.queue = rw e2 (retried-Tried second 1 one.queue t1) in
    flush_pending-retried third two a2 ∙ retried-done third two.queue t2

-- ===== src/Queue/Rows.antt =====
-- queue.go: what the statements on the table mailbox do to the rows of one mailbox.
use lalia.Prelude.{
  ℕ, ◌≤◌, ◌≡◌, refl, ◌∙◌, String, Bool, true, false, not, ◌&&◌, List, [], ◌∷◌, ◌++◌, map,
  if◌then◌else◌, ◌==◌, eqb, keep, keep-append, Bool-cases, inl, inr, arith, eq_iff, eq_refl,
}
use lalia.Types.{Kind, RoomMessage, MailboxRow, Queue, rfc3339}
use lalia.Room.Invariant.{Rising}
use lalia.Queue.{addressed, mailbox_append, mailbox_drop_oldest}

-- The unread rows of a recipient for a room, in the order of mailboxRows.
abbrev pub rows_for : String → String → Queue → List MailboxRow
rows_for j name q = keep (addressed j Kind.room name) q.mailbox

-- The row of a message in a room's mailbox.
abbrev pub to_row : String → String → RoomMessage → MailboxRow
to_row j name m = record {
  recipient = j;
  kind = Kind.room;
  target = name;
  seq = m.seq;
  from_name = m.from;
  ts = rfc3339 m.ts;
  body = m.body;
}

pub rows_for-append :
    (i j name : String) (m : RoomMessage) (q : Queue)
    → rows_for j name (mailbox_append i Kind.room name m.seq m.from m.ts m.body q)
      ≡ rows_for j name q ++ (if i == j then to_row j name m ∷ [] else [])
unfolding mailbox_append
rows_for-append i j name m q =
    keep-append (addressed j Kind.room name) q.mailbox (to_row i name m ∷ []) ∙ one
  where
    one :
        rows_for j name q ++ keep (addressed j Kind.room name) (to_row i name m ∷ [])
        ≡ rows_for j name q ++ (if i == j then to_row j name m ∷ [] else [])
    one = unfold keep addressed in ground (arith, eq_iff i j, eq_refl name)

-- A deletion by number in the mailbox of `i`, seen from the mailbox of `j`.
abbrev without_seq : ℕ → MailboxRow → Bool
without_seq n r = not (eqb r.seq n)

keep-swap {ℓ} :
    {A : Type ℓ} (p d w : A → Bool)
    → ((a : A) → p a ≡ true → d a ≡ w a)
    → (xs : List A) → keep p (keep d xs) ≡ keep w (keep p xs)
unfolding keep
keep-swap p d w h [] = refl
keep-swap p d w h (x ∷ xs) = ground (arith, keep-swap p d w h xs, h x)

keep-skip {ℓ} :
    {A : Type ℓ} (p d : A → Bool)
    → ((a : A) → p a ≡ true → d a ≡ true)
    → (xs : List A) → keep p (keep d xs) ≡ keep p xs
unfolding keep
keep-skip p d h [] = refl
keep-skip p d h (x ∷ xs) = ground (arith, keep-skip p d h xs, h x)

abbrev undeleted : String → String → ℕ → MailboxRow → Bool
undeleted i name n r = not (addressed i Kind.room name r && eqb r.seq n)

undeleted_same :
    (i j name : String) (n : ℕ) (r : MailboxRow)
    → (i == j) ≡ true
    → addressed j Kind.room name r ≡ true
    → undeleted i name n r ≡ without_seq n r
unfolding addressed
undeleted_same i j name n r e h =
    ground (arith, eq_iff i j, eq_iff r.recipient i, eq_iff r.recipient j)

undeleted_other :
    (i j name : String) (n : ℕ) (r : MailboxRow)
    → (i == j) ≡ false
    → addressed j Kind.room name r ≡ true
    → undeleted i name n r ≡ true
unfolding addressed
undeleted_other i j name n r e h =
    ground (arith, eq_iff i j, eq_iff r.recipient i, eq_iff r.recipient j)

keep-deleted :
    (i j name : String) (n : ℕ) (rows : List MailboxRow)
    → keep (addressed j Kind.room name) (keep (undeleted i name n) rows) ≡ (
        if i == j
        then keep (without_seq n) (keep (addressed j Kind.room name) rows)
        else keep (addressed j Kind.room name) rows)
keep-deleted i j name n rows = elim (Bool-cases (i == j)) [
  | inl same ↦ rw same (
      keep-swap (addressed j Kind.room name) (undeleted i name n) (without_seq n)
        (λ r h. undeleted_same i j name n r same h) rows)
  | inr other ↦ rw other (
      keep-skip (addressed j Kind.room name) (undeleted i name n)
        (λ r h. undeleted_other i j name n r other h) rows)
]

pub rows_for-drop_oldest :
    (i j name : String) (n : ℕ) (q : Queue)
    → rows_for j name (mailbox_drop_oldest i Kind.room name n q)
      ≡ (if i == j then keep (without_seq n) (rows_for j name q) else rows_for j name q)
unfolding mailbox_drop_oldest
rows_for-drop_oldest i j name n q = keep-deleted i j name n q.mailbox

-- The rows of a mailbox whose numbers are all above `n` are kept by its deletion.
keep-without_seq :
    (j name : String) (n lo hi : ℕ) (ms : List RoomMessage)
    → Rising lo hi ms
    → n ≤ lo
    → keep (without_seq n) (map (to_row j name) ms) ≡ map (to_row j name) ms
unfolding keep
keep-without_seq j name n lo hi [] h k = refl
keep-without_seq j name n lo hi (m ∷ ms) h k =
    ground (arith, keep-without_seq j name n m.seq hi ms h.1)

pub drop_head_row :
    (j name : String) (hi : ℕ) (m : RoomMessage) (ms : List RoomMessage)
    → Rising 0 hi (m ∷ ms)
    → keep (without_seq m.seq) (map (to_row j name) (m ∷ ms)) ≡ map (to_row j name) ms
unfolding keep
drop_head_row j name hi m ms h = ground (arith, keep-without_seq j name m.seq m.seq hi ms h.1)

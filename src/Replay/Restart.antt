-- ===== src/Replay/Restart.antt =====
-- A restart, as replayMailbox of state.go does it: the mailboxes of the rooms come back from the
-- table that the posts kept.
use lalia.Prelude.{
  ◌≡◌, refl, sym, ◌∙◌, ap, String, true, false, Option, none, some, List, [], ◌∷◌, ◌++◌, map,
  append_assoc, append-nil, if◌then◌else◌, ◌==◌, keep, Bool-cases, inl, inr, arith, eq_iff, subst,
  Option-cases, ◌⊎◌,
}
use lalia.Prelude.Dict.{get, get-put, get_or, get_or-put, put}
use lalia.Types.{
  RoomRecord, MailboxDroppedRow, Room, RoomMessage, MailboxRow, Kind, peer, room, State, Queue,
  rfc3339,
}
use lalia.Queue.{addressed}
use lalia.Queue.Rows.{to_row}
use lalia.Room.{inbox}
use lalia.Rooms.{set_room}
use lalia.Channel.{set_channel}
use lalia.Rooms.Durable.{Mirrors}
use lalia.Replay.{
  parse_rfc3339, from_row, replay_in_room, replay_room, replay_kind, replay_rows, replay_dropped,
  replay_dropped_room, replay_dropped_kind, replay_mailbox, load_room,
}

-- The rows of one mailbox of a room, as the messages that the replay makes of them.
abbrev pub replayed : String → String → List MailboxRow → List RoomMessage
replayed j name rows = map (from_row name) (keep (addressed j Kind.room name) rows)

-- The room of a name, after its mailboxes grew by what `more` says for each member.
abbrev pub Grown : String → Room → (String → List RoomMessage) → State → Type 0
Grown name r more s =
    (t : Room) × (get name s.rooms ≡ some t) × ((j : String) → inbox t j ≡ inbox r j ++ more j)

inbox-replay_in_room :
    (j : String) (row : MailboxRow) (r : Room)
    → inbox (replay_in_room row r) j
      ≡ inbox r j ++ (if row.recipient == j then from_row row.target row ∷ [] else [])
unfolding replay_in_room
inbox-replay_in_room j row r = ground (
  arith,
  get_or-put row.recipient j (inbox r row.recipient ++ (from_row row.target row ∷ [])) [] r.mailbox,
  eq_iff row.recipient j,
  append-nil (inbox r j),
)

module _ (name : String) (r : Room) (row : MailboxRow) (s : State)
    (has : get name s.rooms ≡ some r) where
  -- A row of the room's own table entries adds its message; any other row leaves the room alone.
  step_room :
      (t : Room)
      → get row.target s.rooms ≡ some t
      → row.kind ≡ Kind.room
      → Grown name r (λ j. replayed j name (row ∷ [])) (replay_room row (some t) s)
  unfolding replay_room set_room keep addressed
  step_room t h k = elim (Bool-cases (row.target == name)) [
    | inl same ↦ (
      replay_in_room row t,
      ground (arith, get-put row.target name (replay_in_room row t) s.rooms),
      λ j. grows same j,
    )
    | inr other ↦ (
      r,
      ground (arith, has, get-put row.target name (replay_in_room row t) s.rooms),
      λ j. stays other j,
    )
  ]
    where
      grows :
          (row.target == name) ≡ true
          → (j : String) → inbox (replay_in_room row t) j ≡ inbox r j ++ replayed j name (row ∷ [])
      grows same j = ground (
        arith,
        k,
        has,
        h,
        (eq_iff row.target name).0 same,
        inbox-replay_in_room j row t,
        eq_iff row.recipient j,
      )

      stays :
          (row.target == name) ≡ false
          → (j : String) → inbox r j ≡ inbox r j ++ replayed j name (row ∷ [])
      stays other j = ground (arith, other, append-nil (inbox r j))

  step_peer :
      row.kind ≡ Kind.peer
      → Grown name r (λ j. replayed j name (row ∷ [])) (replay_kind Kind.peer row s)
  unfolding replay_kind set_channel keep addressed
  step_peer k = (r, has, λ j. ground (arith, k, append-nil (inbox r j)))

  step_absent :
      get row.target s.rooms ≡ none
      → Grown name r (λ j. replayed j name (row ∷ [])) (replay_room row none s)
  unfolding replay_room keep addressed
  step_absent h =
      (r, has, λ j. ground (arith, h, has, eq_iff row.target name, append-nil (inbox r j)))

  step : Grown name r (λ j. replayed j name (row ∷ [])) (replay_kind row.kind row s)
  unfolding replay_kind
  step = elim (kind_cases row.kind) [
    | inl p ↦
        subst (λ k. Grown name r (λ j. replayed j name (row ∷ [])) (replay_kind k row s)) (sym p)
          (step_peer p)
    | inr q ↦
        subst (λ k. Grown name r (λ j. replayed j name (row ∷ [])) (replay_kind k row s)) (sym q)
          (elim (Option-cases (get row.target s.rooms)) [
            | inl absent ↦ rw absent (step_absent absent)
            | inr (t, h) ↦ rw h (step_room t h q)
          ])
  ]
    where
      kind_cases : (k : Kind) → (k ≡ Kind.peer) ⊎ (k ≡ Kind.room)
      kind_cases peer = inl refl
      kind_cases room = inr refl

replay_rows-Grown :
    (name : String) (rows : List MailboxRow) (r : Room) (s : State)
    → get name s.rooms ≡ some r
    → Grown name r (λ j. replayed j name rows) (replay_rows rows s)
unfolding replay_rows keep
replay_rows-Grown name [] r s has = (r, has, λ j. sym (append-nil (inbox r j)))
replay_rows-Grown name (row ∷ rows) r s has =
    let (t, at, one) = step name r row s has in
    let (u, found, rest) = replay_rows-Grown name rows t (replay_kind row.kind row s) at in
    (
      u,
      found,
      λ j. ground (
        arith,
        rest j,
        one j,
        append_assoc (inbox r j) (replayed j name (row ∷ [])) (replayed j name rows),
      ),
    )

-- The loop over the drop counts leaves the mailboxes of a room alone.
Same : String → Room → State → Type 0
Same name r s = (t : Room) × (get name s.rooms ≡ some t) × (t.mailbox ≡ r.mailbox)

replay_dropped-Same :
    (name : String) (rows : List MailboxDroppedRow) (r : Room) (s : State)
    → get name s.rooms ≡ some r
    → Same name r (replay_dropped rows s)
unfolding replay_dropped replay_dropped_kind replay_dropped_room set_room Same
replay_dropped-Same name [] r s has = (r, has, refl)
replay_dropped-Same name (row ∷ rows) r s has =
    let (t, at, one) = step_dropped row.kind in
    let (u, found, rest) =
      replay_dropped-Same name rows t (replay_dropped_kind row.kind row s) at in
    (u, found, rest ∙ one)
  where
    at_room :
        (o : Option Room) → get row.target s.rooms ≡ o → Same name r (replay_dropped_room row o s)
    at_room none h = (r, has, refl)
    at_room (some t) h =
        let t' = record t { dropped = put row.recipient row.dropped t.dropped } in
        elim (Bool-cases (row.target == name)) [
          | inl same ↦ (
            t',
            ground (arith, get-put row.target name t' s.rooms),
            ground (arith, has, h, (eq_iff row.target name).0 same),
          )
          | inr other ↦ (r, ground (arith, has, get-put row.target name t' s.rooms), refl)
        ]

    step_dropped : (k : Kind) → Same name r (replay_dropped_kind k row s)
    step_dropped peer = (r, has, refl)
    step_dropped room = at_room (get row.target s.rooms) refl

-- What a restart makes of a message: its time is cut to the second that the table holds.
abbrev pub restored : String → RoomMessage → RoomMessage
restored name m = record m { room = name; ts = parse_rfc3339 (rfc3339 m.ts) }

from_row-to_row :
    (j name : String) (ms : List RoomMessage)
    → map (from_row name) (map (to_row j name) ms) ≡ map (restored name) ms
unfolding from_row
from_row-to_row j name [] = refl
from_row-to_row j name (m ∷ ms) = ap (λ xs. restored name m ∷ xs) (from_row-to_row j name ms)

-- Mailboxes survive a restart: if the database mirrored the room `r`, and the new daemon has loaded
-- the room of that name from its record, then after replayMailbox the room of that name has, for
-- every member, the messages of the old mailbox in their order, each with the room's name and with
-- its time cut to the second.
pub replay_mailbox-restores :
    (r : Room) (q : Queue) (log : List RoomMessage) (members : List String) (rec : RoomRecord)
    (s : State)
    → Mirrors r q
    → get r.name s.rooms ≡ some (load_room log members rec)
    → (u : Room) × (get r.name (replay_mailbox q s).rooms ≡ some u)
      × ((j : String) → inbox u j ≡ map (restored r.name) (inbox r j))
unfolding replay_mailbox Same load_room get_or
replay_mailbox-restores r q log members rec s mir has =
    let (t, at, grown) = replay_rows-Grown r.name q.mailbox (load_room log members rec) s has in
    let (u, found, same) =
      replay_dropped-Same r.name q.mailbox_dropped t (replay_rows q.mailbox s) at in
    (
      u,
      found,
      λ j.
          ap (λ b. get_or j [] b) same
          ∙ grown j
          ∙ ap (map (from_row r.name)) (mir j)
          ∙ from_row-to_row j r.name (inbox r j),
    )

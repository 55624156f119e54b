-- ===== src/Room/Mailbox.antt =====
-- The bounded mailbox of room.go against its specification: the last 64 of what came in.
use lalia.Prelude.{
  ℕ, zero, suc, ◌+◌, ◌-◌, ◌≤◌, ◌<◌, ◌≡◌, refl, String, List, [], ◌∷◌, ◌++◌, append_assoc,
  append-nil, sym, leb, length, drop, length-append, arith, eq_refl, ◌∙◌, ap, inl, inr, Bool-cases,
}
use lalia.Types.{RoomMessage, Room}
use lalia.Room.{inbox, drops, push_bounded, enqueue_bounded, room_mailbox_limit}
use lalia.Room.Delivery.{drop_count, inbox-enqueue, drops-enqueue}

-- The last `n` entries of a list.
abbrev pub last_of {ℓ} : {A : Type ℓ} → ℕ → List A → List A
last_of n xs = drop (length xs - n) xs

module _ {ℓ} {A : Type ℓ} where
  pub length-drop : (n : ℕ) (xs : List A) → length (drop n xs) ≡ length xs - n
  length-drop zero xs = omega arith
  length-drop (suc n) [] = omega arith
  length-drop (suc n) (x ∷ xs) = omega (arith, length-drop n xs)

  drop-append : (n : ℕ) (xs ys : List A) → n ≤ length xs → drop n (xs ++ ys) ≡ drop n xs ++ ys
  drop-append zero xs ys h = refl
  drop-append (suc n) [] ys h = absurd (omega arith)
  drop-append (suc n) (x ∷ xs) ys h = drop-append n xs ys (omega arith)

  drop-one-drop : (n : ℕ) (xs : List A) → drop 1 (drop n xs) ≡ drop (suc n) xs
  drop-one-drop zero xs = refl
  drop-one-drop (suc n) [] = refl
  drop-one-drop (suc n) (x ∷ xs) = drop-one-drop n xs

  drop-eq : (m n : ℕ) (xs : List A) → m ≡ n → drop m xs ≡ drop n xs
  drop-eq m n xs e = ap (λ k. drop k xs) e

pub length-push_bounded :
    (msg : RoomMessage) (q : List RoomMessage)
    → length q ≤ room_mailbox_limit
    → length (push_bounded msg q) ≤ room_mailbox_limit
unfolding push_bounded
length-push_bounded msg q h =
    ground (arith, length-append (drop 1 q) (msg ∷ []), length-append q (msg ∷ []), length-drop 1 q)

push_full :
    (msg : RoomMessage) (all : List RoomMessage)
    → 64 ≤ length all
    → drop 1 (last_of 64 all) ++ (msg ∷ []) ≡ last_of 64 (all ++ (msg ∷ []))
push_full msg all h =
    let one : List RoomMessage = msg ∷ [] in
    let k = length all - 64 in
    ap (λ l. l ++ one) (drop-one-drop k all)
    ∙ (sym (drop-append (suc k) all one (omega arith))
        ∙ drop-eq (suc k) (length (all ++ one) - 64) (all ++ one)
            (omega (arith, length-append all one)))

push_room :
    (msg : RoomMessage) (all : List RoomMessage)
    → length all < 64
    → last_of 64 all ++ (msg ∷ []) ≡ last_of 64 (all ++ (msg ∷ []))
push_room msg all h =
    let one : List RoomMessage = msg ∷ [] in
    sym (drop-append (length all - 64) all one (omega arith))
    ∙ drop-eq (length all - 64) (length (all ++ one) - 64) (all ++ one)
        (omega (arith, length-append all one))

full-length : (all : List RoomMessage) → leb 64 (length (last_of 64 all)) ≡ leb 64 (length all)
full-length all = ground (arith, length-drop (length all - 64) all)

pub push_bounded-last :
    (msg : RoomMessage) (all : List RoomMessage)
    → push_bounded msg (last_of room_mailbox_limit all)
      ≡ last_of room_mailbox_limit (all ++ (msg ∷ []))
unfolding push_bounded
push_bounded-last msg all = elim (Bool-cases (leb 64 (length all))) [
  | inl full ↦ rw (full-length all, full) (push_full msg all (ground arith))
  | inr room ↦ rw (full-length all, room) (push_room msg all (ground arith))
]

-- A run of messages that all go to the mailbox of one member.
abbrev pub enqueue_run : List RoomMessage → String → Room → Room
enqueue_run [] j r = r
enqueue_run (m ∷ ms) j r = enqueue_run ms j (enqueue_bounded m j r)

inbox-run :
    (ms : List RoomMessage) (j : String) (r : Room) (all : List RoomMessage)
    → inbox r j ≡ last_of room_mailbox_limit all
    → inbox (enqueue_run ms j r) j ≡ last_of room_mailbox_limit (all ++ ms)
inbox-run [] j r all h = h ∙ ap (last_of 64) (sym (append-nil all))
inbox-run (m ∷ ms) j r all h =
    inbox-run ms j (enqueue_bounded m j r) (all ++ (m ∷ []))
      (rw (inbox-enqueue m j j r, eq_refl) (ap (push_bounded m) h ∙ push_bounded-last m all))
    ∙ ap (last_of 64) (append_assoc all (m ∷ []) ms)

drops-run :
    (ms : List RoomMessage) (j : String) (r : Room) (all : List RoomMessage)
    → inbox r j ≡ last_of room_mailbox_limit all
    → drops (enqueue_run ms j r) j + (length all - room_mailbox_limit)
      ≡ drops r j + (length (all ++ ms) - room_mailbox_limit)
drops-run [] j r all h = rw (append-nil all)
drops-run (m ∷ ms) j r all h =
    let one : List RoomMessage = m ∷ [] in
    ground (
      arith,
      drops-run ms j (enqueue_bounded m j r) (all ++ one)
          (rw (inbox-enqueue m j j r, eq_refl) (ap (push_bounded m) h ∙ push_bounded-last m all)),
      drops-enqueue m j j r,
      eq_refl j,
      ap drop_count h,
      full-length all,
      length-append all one,
      ap length (append_assoc all one ms),
    )

-- Messages that pile up unread in a mailbox of at most 64 leave the last 64 of everything in it, in
-- order, and the counter of dropped messages grows by the number of the others.
pub enqueue_run-last :
    (ms : List RoomMessage) (j : String) (r : Room)
    → length (inbox r j) ≤ room_mailbox_limit
    → (inbox (enqueue_run ms j r) j ≡ last_of room_mailbox_limit (inbox r j ++ ms))
      × (drops (enqueue_run ms j r) j ≡ drops r j + (length (inbox r j ++ ms) - room_mailbox_limit))
enqueue_run-last ms j r h =
    let fits : inbox r j ≡ last_of room_mailbox_limit (inbox r j) =
      drop-eq 0 (length (inbox r j) - 64) (inbox r j) (omega arith) in
    (inbox-run ms j r (inbox r j) fits, omega (arith, drops-run ms j r (inbox r j) fits))

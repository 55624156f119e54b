-- ===== src/Shutdown/Release.antt =====
-- state.go: requestStop ends the pending reads of the channels.
use lalia.Prelude.{
  ◌≡◌, refl, sym, ap, ◌∙◌, String, Bool, true, false, ◌||◌, ◌&&◌, Option, none, some, List, [], ◌∷◌,
  ◌++◌, eqb, ◌==◌, arith, Bool-cases, inl, inr,
}
use lalia.Prelude.Dict.{Dict, get}
use lalia.Types.{ChanId, Channel, Signal, wait_error, State}
use lalia.Response.{code_peer_closed}
use lalia.Room.{send}
use lalia.Shutdown.{close_waiters, close_channels, request_stop}

abbrev is_closing : Signal → Bool
is_closing (wait_error code) = eqb code code_peer_closed
is_closing _ = false

-- A read that waits on the Go channel finds the error of a shutdown.
unfoldable pub is_released : ChanId → List (ChanId × Signal) → Bool
is_released ch [] = false
is_released ch ((c, v) ∷ rest) = (eqb c ch && is_closing v) || is_released ch rest

is_released-append :
    (ch : ChanId) (xs ys : List (ChanId × Signal))
    → is_released ch (xs ++ ys) ≡ (is_released ch xs || is_released ch ys)
unfolding is_released
is_released-append ch [] ys = refl
is_released-append ch ((c, v) ∷ xs) ys = ground (arith, is_released-append ch xs ys)

send-kept :
    (ch c : ChanId) (s : State)
    → is_released ch s.signals ≡ true
    → is_released ch (send c (wait_error code_peer_closed) s).signals ≡ true
unfolding send
send-kept ch c s h =
    ground (arith, is_released-append ch s.signals ((c, wait_error code_peer_closed) ∷ []))

send-released :
    (ch : ChanId) (s : State)
    → is_released ch (send ch (wait_error code_peer_closed) s).signals ≡ true
unfolding send is_released
send-released ch s =
    is_released-append ch s.signals ((ch, wait_error code_peer_closed) ∷ []) ∙ ground arith

close_waiters-kept :
    (ch : ChanId) (ws : Dict ChanId) (s : State)
    → is_released ch s.signals ≡ true
    → is_released ch (close_waiters ws s).signals ≡ true
unfolding close_waiters
close_waiters-kept ch [] s h = h
close_waiters-kept ch ((name, c) ∷ ws) s h = close_waiters-kept ch ws _ (send-kept ch c s h)

close_waiters-released :
    (name : String) (ch : ChanId) (ws : Dict ChanId) (s : State)
    → get name ws ≡ some ch
    → is_released ch (close_waiters ws s).signals ≡ true
unfolding close_waiters get
close_waiters-released name ch [] s h = cc
close_waiters-released name ch ((n, c) ∷ ws) s h = elim (Bool-cases (n == name)) [
  | inl here ↦
      let same : c ≡ ch = ground (arith, h, here) in
      close_waiters-kept ch ws _ (rw (sym same) (send-released c s))
  | inr other ↦ close_waiters-released name ch ws _ (rw other at h)
]

close_channels-kept :
    (ch : ChanId) (cs : Dict Channel) (s : State)
    → is_released ch s.signals ≡ true
    → is_released ch (close_channels cs s).1.signals ≡ true
unfolding close_channels
close_channels-kept ch [] s h = h
close_channels-kept ch ((k, c) ∷ cs) s h =
    close_channels-kept ch cs _ (close_waiters-kept ch c.waiter s h)

close_channels-released :
    (key name : String) (c : Channel) (ch : ChanId) (cs : Dict Channel) (s : State)
    → get key cs ≡ some c
    → get name c.waiter ≡ some ch
    → is_released ch (close_channels cs s).1.signals ≡ true
unfolding close_channels get
close_channels-released key name c ch [] s h k = cc
close_channels-released key name c ch ((j, d) ∷ cs) s h k = elim (Bool-cases (j == key)) [
  | inl here ↦
      let same : d ≡ c = ground (arith, h, here) in
      close_channels-kept ch cs _ (
        close_waiters-released name ch d.waiter s
          (ap (λ (x : Channel). get name x.waiter) same ∙ k))
  | inr other ↦ close_channels-released key name c ch cs _ (rw other at h) k
]

close_channels-empty :
    (key : String) (c : Channel) (cs : Dict Channel) (s : State)
    → get key (close_channels cs s).0 ≡ some c
    → c.waiter ≡ []
unfolding close_channels get
close_channels-empty key c [] s h = cc
close_channels-empty key c ((j, d) ∷ cs) s h = elim (Bool-cases (j == key)) [
  | inl here ↦
      ap (λ (x : Option Channel). elim x [ some y ↦ y.waiter | none ↦ [] ]) (sym (rw here at h))
  | inr other ↦ close_channels-empty key c cs _ (rw other at h)
]

close_waiters-rooms :
    (ws : Dict ChanId) (s : State)
    → ((close_waiters ws s).rooms ≡ s.rooms) × ((close_waiters ws s).any_waiter ≡ s.any_waiter)
unfolding close_waiters send
close_waiters-rooms [] s = (refl, refl)
close_waiters-rooms ((name, ch) ∷ ws) s =
    close_waiters-rooms ws (send ch (wait_error code_peer_closed) s)

close_channels-rooms :
    (cs : Dict Channel) (s : State)
    → ((close_channels cs s).1.rooms ≡ s.rooms)
      × ((close_channels cs s).1.any_waiter ≡ s.any_waiter)
unfolding close_channels
close_channels-rooms [] s = (refl, refl)
close_channels-rooms ((k, c) ∷ cs) s =
    let (r, a) = close_channels-rooms cs (close_waiters c.waiter s) in
    let (r', a') = close_waiters-rooms c.waiter s in (r ∙ r', a ∙ a')

-- What a shutdown does to the reads that wait
pub record IsReleased (s s' : State) : Type 0 where
  pub told :
      (key name : String) (c : Channel) (ch : ChanId)
      → get key s.channels ≡ some c
      → get name c.waiter ≡ some ch
      → is_released ch s'.signals ≡ true
  pub cleared : (key : String) (c : Channel) → get key s'.channels ≡ some c → c.waiter ≡ []
  pub rooms_wait : s'.rooms ≡ s.rooms
  pub any_waits : s'.any_waiter ≡ s.any_waiter

-- The first requestStop sends the error of a closed peer to the Go channel of every read of a peer
-- channel that is pending, and removes their waiters; the pending reads of rooms and of any source
-- stay as they are.
pub request_stop-IsReleased :
    (s : State) → (s' : State) × (request_stop false s ≡ some s') × IsReleased s s'
unfolding request_stop
request_stop-IsReleased s = (
  _,
  refl,
  record {
    told = λ key name c ch h k. close_channels-released key name c ch s.channels s h k;
    cleared = λ key c h. close_channels-empty key c s.channels s h;
    rooms_wait = (close_channels-rooms s.channels s).0;
    any_waits = (close_channels-rooms s.channels s).1;
  },
)

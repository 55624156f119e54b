-- ===== src/Messaging/Listing.antt =====
-- channel.go and state.go: which channels opChannels lists, and in which order.
use mathlib.Core.List.{Perm, perm-cons}
use mathlib.Core.List.Perm
use lalia.Prelude.{
  ◌≡◌, refl, sym, String, Bool, false, ◌||◌, some, List, [], ◌∷◌, map, if◌then◌else◌, ◌==◌, length,
  keep, Bool-cases, inl, inr, arith,
}
use lalia.Prelude.Dict.{Dict}
use lalia.Types.{Agent, Channel, State}
use lalia.Response.{ok, channel_rows}
use lalia.Text.{str_lt}
use lalia.Text.Order.{not-lt_of_lt}
use lalia.Channel.{
  channel_key, other, pending, channels_of, insert_channel, sort_channels, list_channels,
}
use lalia.Registry.{agent_by_name}
use lalia.Messaging.{op_channels}

abbrev pub values : Dict Channel → List Channel
values [] = []
values ((k, c) ∷ cs) = c ∷ values cs

abbrev pub key_of : Channel → String
key_of c = channel_key c.peer_a c.peer_b

-- No channel has a smaller key than the one before it.
abbrev pub SortedFrom : Channel → List Channel → Type 0
SortedFrom c [] = Unit
SortedFrom c (d ∷ ds) = (str_lt (key_of d) (key_of c) ≡ false) × SortedFrom d ds

abbrev pub IsSorted : List Channel → Type 0
IsSorted [] = Unit
IsSorted (c ∷ cs) = SortedFrom c cs

insert-SortedFrom :
    (b c : Channel) (ds : List Channel)
    → SortedFrom b ds
    → str_lt (key_of c) (key_of b) ≡ false
    → SortedFrom b (insert_channel c ds)
unfolding insert_channel
insert-SortedFrom b c [] h k = (k, tt)
insert-SortedFrom b c (d ∷ ds) h k = elim (Bool-cases (str_lt (key_of d) (key_of c))) [
  | inl below ↦
      rw below (h.0, insert-SortedFrom d c ds h.1 (not-lt_of_lt (key_of d) (key_of c) below))
  | inr above ↦ rw above (k, (above, h.1))
]

insert_channel-IsSorted :
    (c : Channel) (ds : List Channel) → IsSorted ds → IsSorted (insert_channel c ds)
unfolding insert_channel
insert_channel-IsSorted c [] h = tt
insert_channel-IsSorted c (d ∷ ds) h = elim (Bool-cases (str_lt (key_of d) (key_of c))) [
  | inl below ↦ rw below (insert-SortedFrom d c ds h (not-lt_of_lt (key_of d) (key_of c) below))
  | inr above ↦ rw above (above, h)
]

sort_channels-IsSorted : (cs : List Channel) → IsSorted (sort_channels cs)
unfolding sort_channels
sort_channels-IsSorted [] = tt
sort_channels-IsSorted (c ∷ cs) =
    insert_channel-IsSorted c (sort_channels cs) (sort_channels-IsSorted cs)

insert_channel-perm : (c : Channel) (ds : List Channel) → Perm (insert_channel c ds) (c ∷ ds)
unfolding insert_channel
insert_channel-perm c [] = Perm.refl (c ∷ [])
insert_channel-perm c (d ∷ ds) = elim (Bool-cases (str_lt (key_of d) (key_of c))) [
  | inl below ↦
      rw below (Perm.trans ((perm-cons d).1 (insert_channel-perm c ds)) (Perm.swap c d ds))
  | inr above ↦ rw above (Perm.refl (c ∷ d ∷ ds))
]

sort_channels-perm : (cs : List Channel) → Perm (sort_channels cs) cs
unfolding sort_channels
sort_channels-perm [] = Perm.refl []
sort_channels-perm (c ∷ cs) =
    Perm.trans (insert_channel-perm c (sort_channels cs)) ((perm-cons c).1 (sort_channels-perm cs))

abbrev pub is_in : String → Channel → Bool
is_in name c = (c.peer_a == name) || (c.peer_b == name)

channels_of-keep :
    (name : String) (cs : Dict Channel) → channels_of name cs ≡ keep (is_in name) (values cs)
unfolding channels_of keep
channels_of-keep name [] = refl
channels_of-keep name ((k, c) ∷ cs) = ground (arith, channels_of-keep name cs)

-- For a registered caller, opChannels answers with one row for each channel that has the caller as a
-- peer, and no other: the other peer, the number of pending messages of the caller, and the last
-- number given. The rows stand in an order in which no channel key is smaller than the one before
-- it, whatever the order of the map.
pub op_channels-lists :
    (from : String) (s : State) (a : Agent)
    → (from == "") ≡ false
    → agent_by_name from s ≡ some a
    → (cs : List Channel) × (op_channels from s
        ≡ ok (
            channel_rows (
              map
                (λ (c : Channel).
                  (if from == c.peer_a then c.peer_b else c.peer_a, length (pending c from), c.seq))
                cs)))
      × IsSorted cs
      × Perm cs (keep (is_in from) (values s.channels))
unfolding op_channels list_channels other
op_channels-lists from s a named known =
    let cs = sort_channels (channels_of from s.channels) in
    (
      cs,
      rw (named, known) refl,
      sort_channels-IsSorted (channels_of from s.channels),
      rw (sym (channels_of-keep from s.channels))
          (sort_channels-perm (channels_of from s.channels)),
    )
